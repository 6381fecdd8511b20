-- ===== src/EngineeringPatterns/TokenBucket.antt =====
-- token_bucket_rate_limiter.py: TokenBucket and PerClientLimiter. Tokens, rates and times are whole
-- numbers of units so small that the quotient of `wait_time` stays the only fraction. A call reads
-- the clock, which is its argument `now`; the locks make a call one step.
use assets_system.Prelude.Dict
use assets_system.Prelude.Dict.{Dict}
use assets_system.Prelude.{
  ℕ, ◌+◌, ◌-◌, ◌*◌, min, Bool, true, false, ◌||◌, Option, none, some, List, [], ◌∷◌, leb,
  if◌then◌else◌, ◌==◌,
}
pub mod Bounds
mod Tests

pub record TokenBucket : Type 0 where
  pub rate : ℕ
  pub capacity : ℕ
  pub tokens : ℕ
  pub last_update : ℕ

-- the quotient that `wait_time` returns
pub record Fraction : Type 0 where
  pub numerator : ℕ
  pub denominator : ℕ

-- `none` is the ValueError
unfoldable pub init : ℕ → ℕ → ℕ → Option TokenBucket
init rate capacity now =
    if (rate == 0) || (capacity == 0)
    then none
    else some (record { rate = rate; capacity = capacity; tokens = capacity; last_update = now })

unfoldable pub replenish : ℕ → TokenBucket → TokenBucket
replenish now b =
    let elapsed = now - b.last_update in
    record b { tokens = min b.capacity (b.tokens + elapsed * b.rate); last_update = now }

-- the rest of `allow`, after the tokens are replenished
unfoldable pub take : ℕ → TokenBucket → Bool × TokenBucket
take tokens b =
    if leb tokens b.tokens then (true, record b { tokens = b.tokens - tokens }) else (false, b)

unfoldable pub allow : ℕ → ℕ → TokenBucket → Bool × TokenBucket
unfolding replenish take
allow now tokens b = take tokens (replenish now b)

unfoldable pub wait_time : ℕ → ℕ → TokenBucket → Fraction × TokenBucket
unfolding replenish
wait_time now tokens b =
    let filled = replenish now b in
    (
      if leb tokens filled.tokens
          then record { numerator = 0; denominator = 1 }
          else record { numerator = tokens - filled.tokens; denominator = filled.rate },
      filled,
    )

-- Calls of `allow` by other callers, each with its clock and tokens.
unfoldable pub allow_all : List (ℕ × ℕ) → TokenBucket → TokenBucket
unfolding allow
allow_all [] b = b
allow_all ((now, tokens) ∷ calls) b = allow_all calls (allow now tokens b).1

-- A round of the loop: two readings of the clock, and the calls of others while it sleeps.
pub record Round : Type 0 where
  pub now : ℕ
  pub later : ℕ
  pub others : List (ℕ × ℕ)

-- The loop for so many rounds; `none` where it has not returned after them.
unfoldable pub async_allow : List Round → ℕ → TokenBucket → Option TokenBucket
unfolding allow wait_time allow_all
async_allow [] tokens b = none
async_allow (r ∷ rounds) tokens b =
    let (allowed, tried) = allow r.now tokens b in
    let waited = (wait_time r.later tokens tried).1 in
    let rest = async_allow rounds tokens (allow_all r.others waited) in
    if allowed then some tried else rest

pub record PerClientLimiter (K : Type 0) : Type 0 where
  pub rate : ℕ
  pub capacity : ℕ
  pub limiters : Dict K TokenBucket

module _ {K : Type 0} (dec : Discrete K) where
  unfoldable pub init_limiter : ℕ → ℕ → PerClientLimiter K
  init_limiter rate capacity = record { rate = rate; capacity = capacity; limiters = [] }

  -- the bucket of the client, which is made where there is none; `none` is the ValueError
  unfoldable pub get_limiter :
      ℕ → K → PerClientLimiter K → Option (TokenBucket × PerClientLimiter K)
  unfolding init
  get_limiter now client_id l = elim (Dict.get dec client_id l.limiters) [
    | some b ↦ some (b, l)
    | none ↦ elim (init l.rate l.capacity now) [
      | none ↦ none
      | some b ↦ some (b, record l { limiters = Dict.set dec client_id b l.limiters })
    ]
  ]
