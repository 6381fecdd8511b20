-- ===== src/Decorators/Tests.antt =====
-- Runs of the decorators and of RetryPolicy (retry_with_backoff.py), and the theorems at them.
use assets_system.Prelude.Dict
use assets_system.Prelude.{
  ℕ, ◌+◌, ◌*◌, ◌≡◌, refl, true, Option, none, some, List, [], ◌∷◌, ltb, if◌then◌else◌, map, length,
  arith, ℕ_discrete, leb, false, ap,
}
use assets_system.EngineeringPatterns.RetryPolicy.{
  Result, value, error, returns, raises, RetryPolicy, capped, jittered, raise_last, sleep_time,
  run_from, run,
}
use assets_system.EngineeringPatterns.RetryPolicy.Attempts.{run_returns, run_raises}
use assets_system.Decorators.Retry
use assets_system.Decorators.Retry.{to_policy, nonzero, wrapper-run}
use assets_system.Decorators.Memoize
use assets_system.Decorators.Memoize.{Python, KeyPart, Arguments}
use assets_system.Decorators.Once

program : Unit {0}
unfolding capped jittered raise_last sleep_time run_from run Retry.sleep Retry.attempt_from
    Retry.wrapper Memoize.is_over Memoize.hashable Memoize.type_if Memoize.insert Memoize.sorted
    Memoize.positional Memoize.named Memoize.make_key Memoize.popitem Memoize.move_to_end
    Memoize.store Memoize.wrapper Memoize.calls Once.init Once.return_result Once.locked
    Once.wrapper Once.calls Dict.get Dict.set Dict.remove ℕ_discrete
program = tt

-- The demo's function: two attempts fail, the third returns.
abbrev flaky : ℕ → Result ℕ ℕ
flaky attempt = if ltb attempt 3 then error attempt else value 7

abbrev policy : RetryPolicy ℕ
policy = record {
  exceptions = λ e. true;
  max_attempts = 3;
  base_delay = 1;
  backoff = 2;
  max_delay = none;
  jitter = none;
}

run-flaky : run policy flaky ≡ (returns 7, 1 ∷ 2 ∷ [])
unfolding program
run-flaky = refl

run_returns_example : (run policy flaky).0 ≡ returns 7 × (length (run policy flaky).1 ≡ 2)
run_returns_example =
    run_returns policy flaky 2 7 (omega arith) (λ i a b. (i, ground (arith, b), refl)) refl

abbrev broken : ℕ → Result ℕ ℕ
broken attempt = error attempt

run_raises_example : (run policy broken).0 ≡ raises 3 × (length (run policy broken).1 + 1 ≡ 3)
run_raises_example = run_raises policy broken 3 (omega arith) (λ i a b. (i, refl, refl)) refl

abbrev decorator : Retry.Retry ℕ
decorator = record {
  exceptions = λ e. true;
  max_attempts = 3;
  delay = 0;
  backoff = 2;
  jitter = none;
}

wrapper-run_example :
    Retry.wrapper decorator flaky
    ≡ ((run (to_policy decorator) flaky).0, nonzero (run (to_policy decorator) flaky).1)
wrapper-run_example = wrapper-run decorator flaky

-- A string is its number, and the `repr` of a list is a string.
data Value : Type 0 where
  str : ℕ → Value
  list : ℕ → Value

abbrev python : Python Value ℕ ℕ ℕ
python = record {
  is_hashable = λ v. elim v [ str n ↦ true | list n ↦ false ];
  repr = λ v. elim v [ str n ↦ str n | list n ↦ str n ];
  class = λ v. elim v [ str n ↦ n | list n ↦ n ];
  type = λ v. elim v [ str n ↦ 0 | list n ↦ 1 ];
  name_le = leb;
}

option-discrete : Discrete (Option ℕ)
unfolding ℕ_discrete
option-discrete none none = yes refl
option-discrete none (some b) = no (λ e. cc)
option-discrete (some a) none = no (λ e. cc)
option-discrete (some a) (some b) = elim (ℕ_discrete a b) [
  | yes p ↦ yes (ap some p)
  | no p ↦ no (λ e. p cc)
]

part-discrete : Discrete (KeyPart ℕ ℕ ℕ)
unfolding option-discrete
part-discrete (n, t, h) (n', t', h') = elim (option-discrete n n') [
  | no p ↦ no (λ e. p (ap (λ x. x.0) e))
  | yes p ↦ elim (option-discrete t t') [
    | no q ↦ no (λ e. q (ap (λ x. x.1) e))
    | yes q ↦ elim (ℕ_discrete h h') [ no r ↦ no (λ e. r (ap (λ x. x.2) e)) | yes r ↦ yes cc ]
  ]
]

key-discrete : Discrete (List (KeyPart ℕ ℕ ℕ))
unfolding part-discrete
key-discrete [] [] = yes refl
key-discrete [] (y ∷ ys) = no (λ e. cc)
key-discrete (x ∷ xs) [] = no (λ e. cc)
key-discrete (x ∷ xs) (y ∷ ys) =
    let rest = key-discrete xs ys in
    elim (part-discrete x y) [
      | no p ↦ no (λ e. p cc)
      | yes p ↦ elim rest [ no q ↦ no (λ e. q cc) | yes q ↦ yes cc ]
    ]

abbrev number : Value → ℕ
number (str n) = n
number (list n) = n

-- The square of the number of one argument, and for a list one more.
abbrev square : Arguments Value ℕ → ℕ
square a = elim a.args [
  | [] ↦ 0
  | v ∷ rest ↦ number v * number v + elim v [ str n ↦ 0 | list n ↦ 1 ]
]

abbrev on : Value → Arguments Value ℕ
on v = record { args = v ∷ []; kwargs = [] }

-- The oldest entry makes room, and a hit makes an entry the newest.
memoize_evicts :
    map
      (λ p. p.1)
      (Memoize.calls python key-discrete
        (some 2)
        false
        square
        (on (str 1) ∷ on (str 2) ∷ on (str 1) ∷ on (str 3) ∷ [])
        []).1
    ≡ 1 ∷ 9 ∷ []
unfolding program key-discrete
memoize_evicts = refl

-- The key of a list is its `repr`, so the string that is spelled alike gets the result of the list.
memoize_collides :
    (Memoize.calls python key-discrete none false square (on (list 3) ∷ on (str 3) ∷ []) []).0
    ≡ 10 ∷ 10 ∷ []
unfolding program key-discrete
memoize_collides = refl

memoize_typed :
    (Memoize.calls python key-discrete none true square (on (list 3) ∷ on (str 3) ∷ []) []).0
    ≡ 10 ∷ 9 ∷ []
unfolding program key-discrete
memoize_typed = refl

-- Named arguments are sorted, so their order is no part of the key.
make_key_sorted :
    Memoize.make_key python true (record { args = []; kwargs = (2, str 5) ∷ (1, list 6) ∷ [] })
    ≡ (some 1, some 1, 6) ∷ (some 2, some 0, 5) ∷ []
unfolding program
make_key_sorted = refl

abbrev head_or_zero : List ℕ → ℕ
head_or_zero [] = 0
head_or_zero (x ∷ xs) = x

-- A function of the first argument.
abbrev first_square : Arguments Value ℕ → ℕ
first_square a = let x = head_or_zero (map python.class a.args) in x * x

abbrev hashable_calls : List (Arguments Value ℕ)
hashable_calls = on (str 3) ∷ on (str 4) ∷ on (str 3) ∷ []

abbrev outcomes : List (Result ℕ ℕ)
outcomes = error 4 ∷ value 5 ∷ []
