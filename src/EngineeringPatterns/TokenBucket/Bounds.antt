-- ===== src/EngineeringPatterns/TokenBucket/Bounds.antt =====
-- How many tokens a bucket of token_bucket_rate_limiter.py gives away, and when a caller gets them.
use mathlib.Core.Option.{some-injective}
use mathlib.Core.Path.{subst}
use assets_system.Prelude.{
  ℕ, ◌+◌, ◌-◌, ◌*◌, ◌≤◌, ◌<◌, ◌≡◌, refl, sym, ap, ◌∙◌, min, Bool, true, false, ◌||◌, none, some,
  List, [], ◌∷◌, leb, if◌then◌else◌, ◌==◌, arith, inl, inr, Bool-cases,
}
use assets_system.EngineeringPatterns.TokenBucket.{
  TokenBucket, Round, init, replenish, take, allow, allow_all, wait_time, async_allow,
}

-- The calls of `allow` with their clock and tokens.
abbrev pub granted : List (ℕ × ℕ) → TokenBucket → ℕ
granted [] b = 0
granted ((now, tokens) ∷ calls) b =
    let (allowed, c) = allow now tokens b in
    let rest = granted calls c in (if allowed then tokens else 0) + rest

-- The clock never goes back, and ends at `end`.
abbrev pub Runs : ℕ → ℕ → List (ℕ × ℕ) → Type 0
Runs start end [] = start ≤ end
Runs start end ((now, tokens) ∷ calls) = (start ≤ now) × Runs now end calls

allow_lem :
    (now tokens : ℕ) (b : TokenBucket)
    → b.last_update ≤ now
    → let (allowed, c) = allow now tokens b in
      (c.last_update ≡ now)
      × (c.rate ≡ b.rate)
      × (c.capacity ≡ b.capacity)
      × (c.tokens + (if allowed then tokens else 0) ≤ b.tokens + (now - b.last_update) * b.rate)
unfolding allow replenish take
allow_lem now tokens b h = ground arith

allow_tokens :
    (now tokens : ℕ) (b : TokenBucket)
    → b.last_update ≤ now
    → let (allowed, c) = allow now tokens b in
      (c.last_update ≡ now)
      × (c.rate ≡ b.rate)
      × (c.capacity ≡ b.capacity)
      × (c.tokens + (if allowed then tokens else 0)
          ≡ min b.capacity (b.tokens + (now - b.last_update) * b.rate))
unfolding allow replenish take
allow_tokens now tokens b h = ground arith

span : (a b c r : ℕ) → a ≤ b → b ≤ c → (b - a) * r + (c - b) * r ≡ (c - a) * r
span a b c r h k = grind arith

Runs-le : (start end : ℕ) (calls : List (ℕ × ℕ)) → Runs start end calls → start ≤ end
Runs-le start end [] h = h
Runs-le start end ((now, tokens) ∷ calls) h = omega (arith, h.0, Runs-le now end calls h.1)

granted-le :
    (calls : List (ℕ × ℕ)) (end : ℕ) (b : TokenBucket)
    → Runs b.last_update end calls
    → granted calls b ≤ b.tokens + (end - b.last_update) * b.rate
granted-le [] end b h = omega arith
granted-le ((now, tokens) ∷ calls) end b (start, h) =
    let (last, rate, cap, fewer) = allow_lem now tokens b start in
    let c = (allow now tokens b).1 in
    let rest = granted-le calls end c (subst (λ x. Runs x end calls) (sym last) h) in
    let rest' =
      subst (λ x. granted calls c ≤ c.tokens + (end - x) * b.rate) last
        (subst (λ x. granted calls c ≤ c.tokens + (end - c.last_update) * x) rate rest) in
    omega (arith, fewer, rest', span b.last_update now end b.rate start (Runs-le now end calls h))

accepted :
    (refused : Bool) (b c : TokenBucket) → (if refused then none else some b) ≡ some c → b ≡ c
accepted true b c h = cc
accepted false b c h = some-injective _ _ h

-- A new bucket that is asked at times that never go back, up to `end`, gives away at most its capacity
-- and the tokens that the rate allows since it was made.
pub granted_bound :
    (rate capacity start end : ℕ) (calls : List (ℕ × ℕ)) (b : TokenBucket)
    → init rate capacity start ≡ some b
    → Runs start end calls
    → granted calls b ≤ capacity + (end - start) * rate
unfolding init
granted_bound rate capacity start end calls b e h =
    let same =
      accepted ((rate == 0) || (capacity == 0))
        (record { rate = rate; capacity = capacity; tokens = capacity; last_update = start }) b e in
    let made = ap (λ x. x.last_update) same in
    let bound = granted-le calls end b (subst (λ x. Runs x end calls) made h) in
    let bound' =
      subst (λ x. granted calls b ≤ x.tokens + (end - x.last_update) * x.rate) (sym same) bound in
    bound'

-- What a bucket would hold at the end of the calls, with what was given away in them, is at least
-- what it would hold without them.
allow_all-granted :
    (calls : List (ℕ × ℕ)) (end : ℕ) (b : TokenBucket)
    → Runs b.last_update end calls
    → min b.capacity (b.tokens + (end - b.last_update) * b.rate)
      ≤ (replenish end (allow_all calls b)).tokens + granted calls b
unfolding allow_all replenish
allow_all-granted [] end b h = omega arith
allow_all-granted ((now, tokens) ∷ calls) end b (start, h) =
    let (last, rate, cap, full) = allow_tokens now tokens b start in
    let c = (allow now tokens b).1 in
    let rest = allow_all-granted calls end c (subst (λ x. Runs x end calls) (sym last) h) in
    let rest' =
      subst
        (λ x.
          min b.capacity (c.tokens + (end - now) * x)
          ≤ (replenish end (allow_all calls c)).tokens + granted calls c)
        rate
        (subst
          (λ x.
            min b.capacity (c.tokens + (end - x) * c.rate)
            ≤ (replenish end (allow_all calls c)).tokens + granted calls c)
          last
          (subst
            (λ x.
              min x (c.tokens + (end - c.last_update) * c.rate)
              ≤ (replenish end (allow_all calls c)).tokens + granted calls c)
            cap rest)) in
    omega (arith, full, rest', span b.last_update now end b.rate start (Runs-le now end calls h))

-- The sleep of `wait_time` is long enough for the tokens to be there, without a limit.
wait_enough :
    (later woken tokens : ℕ) (b : TokenBucket)
    → (let wait = (wait_time later tokens b).0 in
        wait.numerator ≤ (woken - later) * wait.denominator)
    → tokens ≤ (replenish later b).tokens + (woken - later) * b.rate
unfolding wait_time replenish
wait_enough later woken tokens b w = elim (Bool-cases (leb tokens (replenish later b).tokens)) [
  | inl e ↦ ground (arith, e)
  | inr e ↦ ground (arith, e, w)
]

reaches :
    (tokens capacity filled held given : ℕ)
    → tokens ≤ capacity
    → tokens ≤ filled
    → min capacity filled ≤ held + given
    → given ≡ 0
    → tokens ≤ held
reaches tokens capacity filled held given h k l z = omega arith

allow-enough :
    (woken tokens : ℕ) (b : TokenBucket)
    → tokens ≤ (replenish woken b).tokens
    → (allow woken tokens b).0 ≡ true
unfolding allow take
allow-enough woken tokens b h = ground (arith, h)

woken_allowed :
    (later woken tokens : ℕ) (others : List (ℕ × ℕ)) (b : TokenBucket)
    → tokens ≤ b.capacity
    → Runs later woken others
    → granted others (wait_time later tokens b).1 ≡ 0
    → (let wait = (wait_time later tokens b).0 in
        wait.numerator ≤ (woken - later) * wait.denominator)
    → (allow woken tokens (allow_all others (wait_time later tokens b).1)).0 ≡ true
unfolding wait_time replenish
woken_allowed later woken tokens others b h k untaken w =
    let waited = replenish later b in
    allow-enough woken tokens (allow_all others waited) (
      reaches tokens b.capacity (waited.tokens + (woken - later) * b.rate)
        (replenish woken (allow_all others waited)).tokens (granted others waited) h
        (wait_enough later woken tokens b w) (allow_all-granted others woken waited k) untaken)

-- Where the bucket can hold the tokens, the clock never goes back, the caller sleeps for `wait_time`
-- at least and no other caller is given tokens meanwhile, whatever they ask for, `async_allow`
-- returns in its second round at the latest.
pub async_allow_returns :
    (tokens woken ignored : ℕ) (first : Round) (others : List (ℕ × ℕ)) (rounds : List Round)
    (b : TokenBucket)
    → tokens ≤ b.capacity
    → b.last_update ≤ first.now
    → first.now ≤ first.later
    → Runs first.later woken first.others
    → (let (wait, waited) = wait_time first.later tokens (allow first.now tokens b).1 in
        (wait.numerator ≤ (woken - first.later) * wait.denominator)
        × (granted first.others waited ≡ 0))
    → (c : TokenBucket) × (async_allow
          (first ∷ record { now = woken; later = ignored; others = others } ∷ rounds)
          tokens
          b
        ≡ some c)
unfolding async_allow
async_allow_returns tokens woken ignored first others rounds b cap h1 h2 h3 (w, untaken) =
    let tried = (allow first.now tokens b).1 in
    let waited = (wait_time first.later tokens tried).1 in
    elim (Bool-cases (allow first.now tokens b).0) [
      | inl e ↦ (tried, rw e refl)
      | inr e ↦
          let room = subst (λ x. tokens ≤ x) (sym (allow_lem first.now tokens b h1).2) cap in
          let f = woken_allowed first.later woken tokens first.others tried room h3 untaken w in
          ((allow woken tokens (allow_all first.others waited)).1, rw (e, f) refl)
    ]

allow-over :
    (now later tokens : ℕ) (b : TokenBucket)
    → b.capacity < tokens
    → ((allow now tokens b).0 ≡ false)
      × ((wait_time later tokens (allow now tokens b).1).1.capacity ≡ b.capacity)
unfolding allow wait_time replenish take
allow-over now later tokens b h = ground (arith, h)

capacity-allow_all :
    (calls : List (ℕ × ℕ)) (b : TokenBucket) → (allow_all calls b).capacity ≡ b.capacity
unfolding allow_all allow replenish take
capacity-allow_all [] b = refl
capacity-allow_all ((now, tokens) ∷ calls) b =
    capacity-allow_all calls (allow now tokens b).1 ∙ ground arith

-- A caller that asks for more tokens than the bucket can hold waits for ever.
async_allow_over :
    (rounds : List Round) (tokens : ℕ) (b : TokenBucket)
    → b.capacity < tokens
    → async_allow rounds tokens b ≡ none
unfolding async_allow
async_allow_over [] tokens b h = refl
async_allow_over (r ∷ rounds) tokens b h =
    let (refused, same) = allow-over r.now r.later tokens b h in
    let waited = (wait_time r.later tokens (allow r.now tokens b).1).1 in
    let over = subst (λ x. x < tokens) (sym (capacity-allow_all r.others waited ∙ same)) h in
    rw (refused, async_allow) (async_allow_over rounds tokens (allow_all r.others waited) over)
