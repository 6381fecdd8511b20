-- ===== src/EngineeringPatterns/RetryPolicy/Attempts.antt =====
-- How many attempts `run` of retry_with_backoff.py makes, and how it ends.
use assets_system.Prelude.{
  ℕ, zero, suc, ◌+◌, ◌-◌, ◌≤◌, ◌<◌, ◌≡◌, refl, sym, ◌∙◌, true, false, Option, none, some, ◌∷◌, ◌==◌,
  length, arith,
}
use mathlib.Core.Path.{subst}
use assets_system.EngineeringPatterns.RetryPolicy.{
  Result, value, error, returns, raises, RetryPolicy, sleep_time, run_from, run, raise_last,
}

module _ {T E : Type 0} where
  -- The attempt raises an exception that is retried.
  abbrev pub Fails : RetryPolicy E → (ℕ → Result T E) → ℕ → Type 0
  Fails policy func attempt =
      (exc : E) × (func attempt ≡ error exc) × (policy.exceptions exc ≡ true)

  -- a failed attempt that is not the last one
  run_from-Fails :
      (policy : RetryPolicy E) (func : ℕ → Result T E) (attempts attempt : ℕ)
      (last_exception : Option E)
      → attempt < policy.max_attempts
      → (f : Fails policy func attempt)
      → (let rest = run_from policy func attempts (attempt + 1) (some f.0) in
          run_from policy func (suc attempts) attempt last_exception
          ≡ (rest.0, sleep_time policy attempt ∷ rest.1))
  unfolding run_from
  run_from-Fails policy func attempts attempt last_exception l (exc, e, c) =
      let more : (attempt == policy.max_attempts) ≡ false = ground (arith, l) in
      rw (e, c, more, run_from) refl

  run_from_returns :
      (policy : RetryPolicy E) (func : ℕ → Result T E) (n attempts attempt : ℕ)
      (last_exception : Option E) (result : T)
      → attempt + attempts ≡ policy.max_attempts + 1
      → n < attempts
      → ((i : ℕ) → attempt ≤ i → i < attempt + n → Fails policy func i)
      → func (attempt + n) ≡ value result
      → (let (outcome, slept) = run_from policy func attempts attempt last_exception in
          (outcome ≡ returns result) × (length slept ≡ n))
  unfolding run_from
  run_from_returns policy func n zero attempt last_exception result h l f v =
      absurd (omega (arith, l))
  run_from_returns policy func zero (suc attempts) attempt last_exception result h l f v =
      let here : attempt + 0 ≡ attempt = omega arith in
      let w : func attempt ≡ value result = subst (λ x. func x ≡ value result) here v in
      rw (w, run_from) (refl, refl)
  run_from_returns policy func (suc n) (suc attempts) attempt last_exception result h l f v =
      let fails = f attempt (omega arith) (omega arith) in
      let next : attempt + suc n ≡ attempt + 1 + n = omega arith in
      let (outcome, slept) =
        run_from_returns policy func n attempts (attempt + 1) (some fails.0) result
          (omega (arith, h)) (omega (arith, l)) (λ i a b. f i (omega (arith, a)) (omega (arith, b)))
          (subst (λ x. func x ≡ value result) next v) in
      rw (run_from-Fails policy func attempts attempt last_exception (omega (arith, h, l)) fails)
        (outcome, omega (arith, slept))

  -- If the first `n` attempts fail with exceptions that are retried, fewer than are allowed, and the
  -- next one returns, `run` returns its value after `n` sleeps.
  pub run_returns :
      (policy : RetryPolicy E) (func : ℕ → Result T E) (n : ℕ) (result : T)
      → n < policy.max_attempts
      → ((i : ℕ) → 1 ≤ i → i < 1 + n → Fails policy func i)
      → func (1 + n) ≡ value result
      → (let (outcome, slept) = run policy func in (outcome ≡ returns result) × (length slept ≡ n))
  unfolding run
  run_returns policy func n result l f v =
      run_from_returns policy func n policy.max_attempts 1 none result (omega arith) l f v

  run_from_raises :
      (policy : RetryPolicy E) (func : ℕ → Result T E) (n attempt : ℕ) (last_exception : Option E)
      (exc : E)
      → attempt + n ≡ policy.max_attempts
      → ((i : ℕ) → attempt ≤ i → i ≤ policy.max_attempts → Fails policy func i)
      → func policy.max_attempts ≡ error exc
      → (let (outcome, slept) = run_from policy func (suc n) attempt last_exception in
          (outcome ≡ raises exc) × (length slept ≡ n))
  unfolding run_from raise_last
  run_from_raises policy func zero attempt last_exception exc h f e =
      let (last, k, c) = f attempt (omega arith) (omega (arith, h)) in
      let here : attempt ≡ policy.max_attempts = omega (arith, h) in
      let end : (attempt == policy.max_attempts) ≡ true = ground (arith, here) in
      let w : func attempt ≡ error exc = subst (λ x. func x ≡ error exc) (sym here) e in
      let same : error last ≡ error exc = sym k ∙ w in
      let caught : policy.exceptions exc ≡ true = cc in rw (w, caught, end, run_from) (refl, refl)
  run_from_raises policy func (suc n) attempt last_exception exc h f e =
      let fails = f attempt (omega arith) (omega (arith, h)) in
      let (outcome, slept) =
        run_from_raises policy func n (attempt + 1) (some fails.0) exc (omega (arith, h))
          (λ i a b. f i (omega (arith, a)) b) e in
      rw (run_from-Fails policy func (suc n) attempt last_exception (omega (arith, h)) fails)
        (outcome, omega (arith, slept))

  -- If there is an attempt and all fail with exceptions that are retried, `run` raises the exception of
  -- the last one, after a sleep between each two.
  pub run_raises :
      (policy : RetryPolicy E) (func : ℕ → Result T E) (exc : E)
      → 0 < policy.max_attempts
      → ((i : ℕ) → 1 ≤ i → i ≤ policy.max_attempts → Fails policy func i)
      → func policy.max_attempts ≡ error exc
      → (let (outcome, slept) = run policy func in
          (outcome ≡ raises exc) × (length slept + 1 ≡ policy.max_attempts))
  unfolding run
  run_raises policy func exc l f e =
      let count : suc (policy.max_attempts - 1) ≡ policy.max_attempts = omega (arith, l) in
      let (outcome, slept) =
        run_from_raises policy func (policy.max_attempts - 1) 1 none exc (omega (arith, l)) f e in
      subst
        (λ x.
          (let (o, s) = run_from policy func x 1 none in
            (o ≡ raises exc) × (length s + 1 ≡ policy.max_attempts)))
        count (outcome, omega (arith, slept, l))
