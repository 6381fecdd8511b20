-- ===== src/Decorators/Once.antt =====
-- once.py: the wrapper of the decorator `once`, for calls that come one after the other.
use assets_system.Prelude.{
  ◌≡◌, refl, ap, Bool, true, false, ◌&&◌, Option, none, some, List, [], ◌∷◌, map, if◌then◌else◌,
}
use assets_system.EngineeringPatterns.RetryPolicy.{Result, value, error}

-- The variables that the wrapper keeps. `result` has no value before the first call.
pub record Once (T E : Type 0) : Type 0 where
  pub called : Bool
  pub result : Option T
  pub exception : Option E

-- How a call of the wrapper ends; `unbound` is the error of reading `result` before it has a value.
pub data Answer (T E : Type 0) : Type 0 where
  returns : T → Answer T E
  raises : E → Answer T E
  unbound : Answer T E

module _ {T E : Type 0} where
  unfoldable pub init : Once T E
  init = record { called = false; result = none; exception = none }

  unfoldable pub return_result : Option T → Answer T E
  return_result none = unbound
  return_result (some result) = returns result

  -- the part after the lock is taken, for a function that ends in this way
  unfoldable pub locked : Result T E → Once T E → Answer T E × Once T E
  unfolding return_result
  locked outcome o =
      if o.called
      then (elim o.exception [ some exc ↦ raises exc | none ↦ return_result o.result ], o)
      else elim outcome [
        | value result ↦ (returns result, record o { result = some result; called = true })
        | error exc ↦ (raises exc, record o { exception = some exc; called = true })
      ]

  unfoldable pub wrapper : Result T E → Once T E → Answer T E × Once T E
  unfolding locked
  wrapper outcome o =
      if o.called && elim o.exception [ none ↦ true | some exc ↦ false ]
      then (return_result o.result, o)
      else locked outcome o

  -- Calls of the wrapper, where the function would end in the given ways.
  unfoldable pub calls : List (Result T E) → Once T E → List (Answer T E)
  unfolding wrapper
  calls [] o = []
  calls (outcome ∷ outcomes) o =
      let (answer, next) = wrapper outcome o in answer ∷ calls outcomes next

  abbrev pub answer : Result T E → Answer T E
  answer (value result) = returns result
  answer (error exc) = raises exc

  -- the variables after a first call that ended in this way
  abbrev after : Result T E → Once T E
  after (value result) = record { called = true; result = some result; exception = none }
  after (error exc) = record { called = true; result = none; exception = some exc }

  calls-after :
      (first : Result T E) (outcomes : List (Result T E))
      → calls outcomes (after first) ≡ map (λ x. answer first) outcomes
  unfolding calls
  calls-after first [] = refl
  calls-after (value result) (x ∷ outcomes) =
      ap (λ x. returns result ∷ x) (calls-after (value result) outcomes)
  calls-after (error exc) (x ∷ outcomes) =
      ap (λ x. raises exc ∷ x) (calls-after (error exc) outcomes)

  -- Every call ends as the function did at the first one, whatever it would do later.
  calls-first :
      (first : Result T E) (outcomes : List (Result T E))
      → calls (first ∷ outcomes) init ≡ map (λ x. answer first) (first ∷ outcomes)
  unfolding calls init
  calls-first (value result) outcomes =
      ap (λ x. returns result ∷ x) (calls-after (value result) outcomes)
  calls-first (error exc) outcomes = ap (λ x. raises exc ∷ x) (calls-after (error exc) outcomes)
