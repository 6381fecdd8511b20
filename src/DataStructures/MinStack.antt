-- ===== src/DataStructures/MinStack.antt =====
-- min_stack.py over natural numbers: each element is kept beside the minimum at its time. `none` is
-- the IndexError.
use assets_system.Prelude.{
  ℕ, ◌≡◌, ◌∙◌, sym, ap, refl, Option, none, some, List, [], ◌∷◌, map, min, ltb, if◌then◌else◌,
  length, arith,
}

-- The list's head is the top.
pub record MinStack : Type 0 where
  pub stack : List (ℕ × ℕ)

unfoldable pub init : MinStack
init = record { stack = [] }

unfoldable pub new_min : ℕ → List (ℕ × ℕ) → ℕ
new_min value [] = value
new_min value ((x, current_min) ∷ rest) = if ltb value current_min then value else current_min

unfoldable pub push : ℕ → MinStack → MinStack
unfolding new_min
push value s = record { stack = (value, new_min value s.stack) ∷ s.stack }

unfoldable pub pop : MinStack → Option (ℕ × MinStack)
pop s = elim s.stack [ [] ↦ none | p ∷ rest ↦ some (p.0, record { stack = rest }) ]

unfoldable pub top : MinStack → Option ℕ
top s = elim s.stack [ [] ↦ none | p ∷ rest ↦ some p.0 ]

unfoldable pub get_min : MinStack → Option ℕ
get_min s = elim s.stack [ [] ↦ none | p ∷ rest ↦ some p.1 ]

-- `len(s)`
unfoldable pub len : MinStack → ℕ
len s = length s.stack

-- A call of a method.
pub data Call : Type 0 where
  pushes : ℕ → Call
  pops : Call

unfoldable pub call : Call → MinStack → MinStack
unfolding push pop
call (pushes value) s = push value s
call pops s = elim (pop s) [ none ↦ s | some (x, s') ↦ s' ]

unfoldable pub calls : List Call → MinStack → MinStack
unfolding call
calls [] s = s
calls (c ∷ cs) s = calls cs (call c s)

-- The elements of the stack, from the top.
abbrev pub values : MinStack → List ℕ
values s = map (λ p. p.0) s.stack

abbrev pub minimum : List ℕ → Option ℕ
minimum [] = none
minimum (x ∷ xs) = let rest = minimum xs in elim rest [ none ↦ some x | some m ↦ some (min x m) ]

-- What a plain stack does, and what its queries see.
abbrev pub list_call : Call → List ℕ → List ℕ
list_call (pushes value) xs = value ∷ xs
list_call pops [] = []
list_call pops (x ∷ xs) = xs

abbrev pub list_calls : List Call → List ℕ → List ℕ
list_calls [] xs = xs
list_calls (c ∷ cs) xs = list_calls cs (list_call c xs)

abbrev pub list_top : List ℕ → Option ℕ
list_top [] = none
list_top (x ∷ xs) = some x

-- Each element is beside the minimum of those up to it.
abbrev Cached : List (ℕ × ℕ) → Type 0
Cached [] = Unit
Cached ((x, m) ∷ rest) = (minimum (x ∷ map (λ p. p.0) rest) ≡ some m) × Cached rest

new_min-Cached :
    (value : ℕ) (xs : List (ℕ × ℕ)) → Cached xs → Cached ((value, new_min value xs) ∷ xs)
unfolding new_min
new_min-Cached value [] h = (refl, tt)
new_min-Cached value ((x, m) ∷ rest) h = (rw h.0 (ground arith), h)

call-Cached :
    (c : Call) (xs : List (ℕ × ℕ)) → Cached xs → Cached (call c (record { stack = xs })).stack
unfolding call push pop
call-Cached (pushes value) xs h = new_min-Cached value xs h
call-Cached pops [] h = h
call-Cached pops (p ∷ rest) h = h.1

calls-Cached : (cs : List Call) (s : MinStack) → Cached s.stack → Cached (calls cs s).stack
unfolding calls
calls-Cached [] s h = h
calls-Cached (c ∷ cs) s h = calls-Cached cs (call c s) (call-Cached c s.stack h)

values-call :
    (c : Call) (xs : List (ℕ × ℕ))
    → values (call c (record { stack = xs })) ≡ list_call c (map (λ p. p.0) xs)
unfolding call push pop
values-call (pushes value) xs = refl
values-call pops [] = refl
values-call pops (p ∷ rest) = refl

values-calls : (cs : List Call) (s : MinStack) → values (calls cs s) ≡ list_calls cs (values s)
unfolding calls
values-calls [] s = refl
values-calls (c ∷ cs) s = values-calls cs (call c s) ∙ ap (list_calls cs) (values-call c s.stack)

get_min-Cached :
    (xs : List (ℕ × ℕ)) → Cached xs → get_min (record { stack = xs }) ≡ minimum (map (λ p. p.0) xs)
unfolding get_min
get_min-Cached [] h = refl
get_min-Cached (p ∷ rest) h = sym h.0

top-values : (xs : List (ℕ × ℕ)) → top (record { stack = xs }) ≡ list_top (map (λ p. p.0) xs)
unfolding top
top-values [] = refl
top-values (p ∷ rest) = refl

-- After any calls on a new stack, its elements are those of a plain list under the same calls, the
-- top is the list's first, and the minimum is that of the list, or an IndexError where it is empty.
pub calls-values :
    (cs : List Call)
    → (values (calls cs init) ≡ list_calls cs [])
      × (top (calls cs init) ≡ list_top (list_calls cs []))
      × (get_min (calls cs init) ≡ minimum (list_calls cs []))
unfolding init
calls-values cs =
    let same = values-calls cs init in
    (
      same,
      top-values (calls cs init).stack ∙ ap list_top same,
      get_min-Cached (calls cs init).stack (calls-Cached cs init tt) ∙ ap minimum same,
    )
