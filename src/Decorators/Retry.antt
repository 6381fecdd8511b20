-- ===== src/Decorators/Retry.antt =====
-- retry.py: the wrapper of the decorator `retry`, with the outcomes, jitters and sleeps of
-- RetryPolicy. Delays and jitters are not negative, and the callback `on_error` is left out.
use Prim.Native.Nat.{◌^◌}
use Prim.Native.Nat.pow
use assets_system.Prelude.{
  ◌≡◌, ◌⊎◌, refl, sym, ap, ◌∙◌, inl, inr, arith, Bool-cases, ℕ, zero, suc, ◌+◌, ◌-◌, ◌*◌, Bool,
  Option, none, some, List, [], ◌∷◌, if◌then◌else◌, ◌==◌,
}
use assets_system.EngineeringPatterns.RetryPolicy.{
  Result, value, error, Outcome, returns, raises, RetryPolicy, sleep_time, run_from, run, capped,
  jittered, raise_last,
}

pub record Retry (E : Type 0) : Type 0 where
  pub exceptions : E → Bool
  pub max_attempts : ℕ
  pub delay : ℕ
  pub backoff : ℕ
  pub jitter : Option (ℕ → ℕ)

-- `if sleep_time > 0: time.sleep(sleep_time)`
unfoldable pub sleep : ℕ → List ℕ → List ℕ
sleep sleep_time slept = if sleep_time == 0 then slept else sleep_time ∷ slept

module _ {T E : Type 0} where
  -- the loop from `attempt` on, for so many attempts
  unfoldable pub attempt_from :
      Retry E → (ℕ → Result T E) → ℕ → ℕ → ℕ → Option E → Outcome T E × List ℕ
  unfolding sleep raise_last jittered
  attempt_from retry func zero attempt current_delay last_exception =
      (raise_last last_exception, [])
  attempt_from retry func (suc attempts) attempt current_delay last_exception =
      elim (func attempt) [
        | value result ↦ (returns result, [])
        | error exc ↦
            let rest =
              attempt_from retry func attempts (attempt + 1) (current_delay * retry.backoff)
                (some exc) in
            if retry.exceptions exc
            then if attempt == retry.max_attempts
              then (raise_last (some exc), [])
              else (rest.0, sleep (jittered retry.jitter attempt current_delay) rest.1)
            else (raises exc, [])
      ]

  unfoldable pub wrapper : Retry E → (ℕ → Result T E) → Outcome T E × List ℕ
  unfolding attempt_from
  wrapper retry func = attempt_from retry func retry.max_attempts 1 retry.delay none

-- The policy of RetryPolicy with the parameters of the decorator and no largest delay.
abbrev pub to_policy : {E : Type 0} → Retry E → RetryPolicy E
to_policy retry = record {
  exceptions = retry.exceptions;
  max_attempts = retry.max_attempts;
  base_delay = retry.delay;
  backoff = retry.backoff;
  max_delay = none;
  jitter = retry.jitter;
}

-- The sleeps that are not of length 0.
abbrev pub nonzero : List ℕ → List ℕ
nonzero [] = []
nonzero (zero ∷ ts) = nonzero ts
nonzero (suc t ∷ ts) = suc t ∷ nonzero ts

sleep-nonzero : (t : ℕ) (ts : List ℕ) → sleep t (nonzero ts) ≡ nonzero (t ∷ ts)
unfolding sleep
sleep-nonzero zero ts = refl
sleep-nonzero (suc t) ts = ground arith

Result-cases :
    {T E : Type 0} (r : Result T E) → ((t : T) × (r ≡ value t)) ⊎ ((e : E) × (r ≡ error e))
Result-cases (value t) = inl (t, refl)
Result-cases (error e) = inr (e, refl)

next_delay :
    (delay backoff before current_delay : ℕ)
    → current_delay ≡ delay * backoff ^ before
    → current_delay * backoff ≡ delay * backoff ^ (before + 1)
next_delay delay backoff before current_delay h =
    let p : backoff ^ (before + 1) ≡ backoff ^ before * backoff =
      ap (λ x. backoff ^ x) (omega arith) ∙ pow.suc backoff before in
    rw (p, h) (grind arith)

sleep_time-to_policy :
    {E : Type 0} (retry : Retry E) (before current_delay : ℕ)
    → current_delay ≡ retry.delay * retry.backoff ^ before
    → sleep_time (to_policy retry) (before + 1) ≡ jittered retry.jitter (before + 1) current_delay
unfolding sleep_time capped
sleep_time-to_policy retry before current_delay h =
    let same : before + 1 - 1 ≡ before = omega arith in
    ap (jittered retry.jitter (before + 1)) (ap (λ x. retry.delay * retry.backoff ^ x) same ∙ sym h)

module _ {T E : Type 0} where
  attempt_from-run_from :
      (retry : Retry E) (func : ℕ → Result T E) (attempts before current_delay : ℕ)
      (last_exception : Option E)
      → current_delay ≡ retry.delay * retry.backoff ^ before
      → (let (outcome, slept) =
            run_from (to_policy retry) func attempts (before + 1) last_exception in
          attempt_from retry func attempts (before + 1) current_delay last_exception
          ≡ (outcome, nonzero slept))
  unfolding attempt_from run_from sleep_time
  attempt_from-run_from retry func zero before current_delay last_exception h = refl
  attempt_from-run_from retry func (suc attempts) before current_delay last_exception h =
      elim (Result-cases (func (before + 1))) [
        | inl (t, e) ↦ rw (e, attempt_from, run_from) refl
        | inr (exc, e) ↦ elim (Bool-cases (retry.exceptions exc)) [
          | inr c ↦ rw (e, c, attempt_from, run_from) refl
          | inl c ↦ elim (Bool-cases (before + 1 == retry.max_attempts)) [
            | inl m ↦ rw (e, c, m, attempt_from, run_from) refl
            | inr m ↦
                let rest =
                  attempt_from-run_from retry func attempts (before + 1)
                    (current_delay * retry.backoff) (some exc)
                    (next_delay retry.delay retry.backoff before current_delay h) in
                let slept = sleep_time-to_policy retry before current_delay h in
                rw (e, c, m, attempt_from, run_from, rest, slept, sleep-nonzero) refl
          ]
        ]
      ]

  -- For delays and jitters that are not negative: the decorator ends as RetryPolicy does with its
  -- parameters and no largest delay, and sleeps as long, except that it leaves out sleeps of length 0.
  pub wrapper-run :
      (retry : Retry E) (func : ℕ → Result T E)
      → wrapper retry func
        ≡ ((run (to_policy retry) func).0, nonzero (run (to_policy retry) func).1)
  unfolding wrapper run
  wrapper-run retry func =
      attempt_from-run_from retry func retry.max_attempts 0 retry.delay none
        (rw (pow.zero retry.backoff) (omega arith))
