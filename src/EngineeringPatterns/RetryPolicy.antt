-- ===== src/EngineeringPatterns/RetryPolicy.antt =====
-- retry_with_backoff.py: RetryPolicy. The outcome of a call of the function is given by the number of
-- the attempt, as the value of the jitter is, and the result of `run` comes with the times that it
-- slept. Delays and jitters are whole numbers that are not negative.
use Prim.Native.Nat.{◌^◌}
use assets_system.Prelude.{
  ℕ, zero, suc, ◌+◌, ◌-◌, ◌*◌, min, Bool, true, false, Option, none, some, List, [], ◌∷◌,
  if◌then◌else◌, ◌==◌,
}
pub mod Attempts

-- How a call of the function ends.
pub data Result (T E : Type 0) : Type 0 where
  value : T → Result T E
  error : E → Result T E

-- How `run` ends.
pub data Outcome (T E : Type 0) : Type 0 where
  returns : T → Outcome T E
  raises : E → Outcome T E
  assertion_error : Outcome T E

pub record RetryPolicy (E : Type 0) : Type 0 where
  pub exceptions : E → Bool
  pub max_attempts : ℕ
  pub base_delay : ℕ
  pub backoff : ℕ
  pub max_delay : Option ℕ
  pub jitter : Option (ℕ → ℕ)

-- `none` is the ValueError
unfoldable pub init :
    {E : Type 0} → (E → Bool) → ℕ → ℕ → ℕ → Option ℕ → Option (ℕ → ℕ) → Option (RetryPolicy E)
init exceptions max_attempts base_delay backoff max_delay jitter =
    if max_attempts == 0
    then none
    else some (record {
      exceptions = exceptions;
      max_attempts = max_attempts;
      base_delay = base_delay;
      backoff = backoff;
      max_delay = max_delay;
      jitter = jitter;
    })

-- `min(delay, max_delay)`, where there is one
unfoldable pub capped : Option ℕ → ℕ → ℕ
capped none delay = delay
capped (some max_delay) delay = min delay max_delay

unfoldable pub jittered : Option (ℕ → ℕ) → ℕ → ℕ → ℕ
jittered none attempt delay = delay
jittered (some jitter) attempt delay = delay + jitter attempt

-- `assert last_exception is not None; raise last_exception`
unfoldable pub raise_last : {T E : Type 0} → Option E → Outcome T E
raise_last none = assertion_error
raise_last (some exc) = raises exc

unfoldable pub sleep_time : {E : Type 0} → RetryPolicy E → ℕ → ℕ
unfolding capped jittered
sleep_time policy attempt =
    jittered policy.jitter attempt
      (capped policy.max_delay (policy.base_delay * policy.backoff ^ (attempt - 1)))

module _ {T E : Type 0} where
  -- the loop from `attempt` on, for so many attempts
  unfoldable pub run_from :
      RetryPolicy E → (ℕ → Result T E) → ℕ → ℕ → Option E → Outcome T E × List ℕ
  unfolding sleep_time raise_last
  run_from policy func zero attempt last_exception = (raise_last last_exception, [])
  run_from policy func (suc attempts) attempt last_exception = elim (func attempt) [
    | value result ↦ (returns result, [])
    | error exc ↦
        let rest = run_from policy func attempts (attempt + 1) (some exc) in
        if policy.exceptions exc
        then if attempt == policy.max_attempts
          then (raise_last (some exc), [])
          else (rest.0, sleep_time policy attempt ∷ rest.1)
        else (raises exc, [])
  ]

  unfoldable pub run : RetryPolicy E → (ℕ → Result T E) → Outcome T E × List ℕ
  unfolding run_from
  run policy func = run_from policy func policy.max_attempts 1 none
