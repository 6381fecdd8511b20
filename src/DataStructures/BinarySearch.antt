-- ===== src/DataStructures/BinarySearch.antt =====
-- binary_search.py over sequences of natural numbers. A loop runs on fuel, of which there is enough
-- when it is at least the length of the interval; `none` is an IndexError or the end of the fuel.
use assets_system.Prelude.{
  ℕ, zero, suc, ◌+◌, ◌-◌, ◌/◌, Bool, Option, none, some, List, [], ◌∷◌, ltb, leb, if◌then◌else◌,
  ◌==◌, length,
}

-- `arr[i]`
unfoldable pub nth : List ℕ → ℕ → Option ℕ
nth [] i = none
nth (x ∷ xs) i = let rest = nth xs (i - 1) in if i == 0 then some x else rest

-- The loop of `binary_search`, where `stop` is `right + 1`. The index -1 is the answer `none`.
unfoldable pub search : ℕ → List ℕ → ℕ → ℕ → ℕ → Option (Option ℕ)
unfolding nth
search zero arr target left stop = if ltb left stop then none else some none
search (suc fuel) arr target left stop =
    let mid = (left + stop - 1) / 2 in
    let found : Option (Option ℕ) = elim (nth arr mid) [
      | none ↦ none
      | some x ↦
          let rest =
            search fuel arr target (if ltb x target then mid + 1 else left)
              (if ltb x target then stop else mid) in
          if x == target then some (some mid) else rest
    ] in
    if ltb left stop then found else some none

unfoldable pub binary_search : List ℕ → ℕ → Option (Option ℕ)
unfolding search
binary_search arr target = search (length arr) arr target 0 (length arr)

-- The loop of `lower_bound` and of `upper_bound`, which differ in the test that moves `left`.
unfoldable pub bound : (ℕ → Bool) → ℕ → List ℕ → ℕ → ℕ → Option ℕ
unfolding nth
bound test zero arr left right = if ltb left right then none else some left
bound test (suc fuel) arr left right =
    let mid = (left + right) / 2 in
    let rest : Option ℕ = elim (nth arr mid) [
      | none ↦ none
      | some x ↦
          bound test fuel arr (if test x then mid + 1 else left) (if test x then right else mid)
    ] in
    if ltb left right then rest else some left

unfoldable pub lower_bound : List ℕ → ℕ → Option ℕ
unfolding bound
lower_bound arr target = bound (λ x. ltb x target) (length arr) arr 0 (length arr)

unfoldable pub upper_bound : List ℕ → ℕ → Option ℕ
unfolding bound
upper_bound arr target = bound (λ x. leb x target) (length arr) arr 0 (length arr)
