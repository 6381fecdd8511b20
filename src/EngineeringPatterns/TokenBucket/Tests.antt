-- ===== src/EngineeringPatterns/TokenBucket/Tests.antt =====
-- Calls of a bucket and of clients' buckets (token_bucket_rate_limiter.py), and the theorems at them.
use assets_system.Prelude.Dict
use assets_system.Prelude.{
  ◌+◌, ◌-◌, ◌*◌, ◌≤◌, ◌≡◌, refl, none, some, [], ◌∷◌, map, arith, ℕ_discrete,
}
use assets_system.EngineeringPatterns.TokenBucket.{
  TokenBucket, Round, init, replenish, take, allow, allow_all, wait_time, async_allow, init_limiter,
  get_limiter,
}
use assets_system.EngineeringPatterns.TokenBucket.Bounds.{
  granted, granted_bound, async_allow_returns,
}

program : Unit {0}
unfolding init replenish take allow allow_all wait_time async_allow init_limiter get_limiter
    Dict.get Dict.set ℕ_discrete
program = tt

abbrev bucket : TokenBucket
bucket = record { rate = 2; capacity = 5; tokens = 5; last_update = 0 }

-- Of three calls for four tokens the second comes too early.
granted_total : granted ((1, 4) ∷ (1, 4) ∷ (3, 4) ∷ []) bucket ≡ 8
unfolding program
granted_total = refl

-- A zero rate is refused for every client.
get_limiter_refused : get_limiter ℕ_discrete 0 1 (init_limiter ℕ_discrete 0 5) ≡ none
unfolding program
get_limiter_refused = refl

get_limiter_again :
    map
      (λ p. p.1)
      (elim (get_limiter ℕ_discrete 7 1
        (record { rate = 2; capacity = 5; limiters = (1, bucket) ∷ [] })) [
          | none ↦ []
          | some r ↦ r.1.limiters
        ])
    ≡ bucket ∷ []
unfolding program
get_limiter_again = refl

granted_bound_example : granted ((1, 4) ∷ (1, 4) ∷ (3, 4) ∷ []) bucket ≤ 5 + (10 - 0) * 2
unfolding program
granted_bound_example =
    granted_bound 2 5 0 10 ((1, 4) ∷ (1, 4) ∷ (3, 4) ∷ []) bucket refl
      (omega arith, (omega arith, (omega arith, omega arith)))

abbrev drained : TokenBucket
drained = record bucket { tokens = 0 }

-- Another caller asks for too much while the first one sleeps.
abbrev first : Round
first = record { now = 0; later = 0; others = (1, 3) ∷ [] }

async_allow_returns_example :
    (c : TokenBucket) × (async_allow
        (first ∷ record { now = 2; later = 2; others = [] } ∷ [])
        4
        drained
      ≡ some c)
unfolding program
async_allow_returns_example =
    async_allow_returns 4 2 2 first [] [] drained (omega arith) (omega arith) (omega arith)
      (omega arith, omega arith) (omega arith, refl)

-- The other caller is given a token, and the first is not back in the second round.
async_allow_overtaken :
    async_allow
      (record first { others = (1, 1) ∷ [] } ∷ record { now = 2; later = 2; others = [] } ∷ [])
      4
      drained
    ≡ none
unfolding program
async_allow_overtaken = refl
