-- ===== src/DataStructures/Tests.antt =====
-- The runs of the demos of binary_search.py and min_stack.py, and the theorems at their data.
use assets_system.Prelude.{ℕ, ◌≡◌, refl, Option, none, some, List, [], ◌∷◌, arith}
use assets_system.DataStructures.BinarySearch.{
  nth, search, binary_search, bound, lower_bound, upper_bound,
}
use assets_system.DataStructures.Searches.{Sorted, IsAnswer, binary_search-IsAnswer}
use assets_system.DataStructures.MinStack
use assets_system.DataStructures.MinStack.{
  Call, pushes, pops, list_calls, list_top, minimum, values, calls-values,
}

program : Unit {0}
unfolding nth search binary_search bound lower_bound upper_bound MinStack.init MinStack.new_min
    MinStack.push MinStack.pop MinStack.top MinStack.get_min MinStack.call MinStack.calls
program = tt

abbrev demo_arr : List ℕ
demo_arr = 1 ∷ 3 ∷ 5 ∷ 7 ∷ 9 ∷ []

demo_found : binary_search demo_arr 5 ≡ some (some 2)
unfolding program
demo_found = refl

demo_missing : binary_search demo_arr 6 ≡ some none
unfolding program
demo_missing = refl

demo_lower_bound : lower_bound demo_arr 6 ≡ some 3
unfolding program
demo_lower_bound = refl

demo_upper_bound : upper_bound demo_arr 5 ≡ some 3
unfolding program
demo_upper_bound = refl

abbrev pair : List ℕ
pair = 1 ∷ 3 ∷ []

pair-Sorted : Sorted pair
unfolding nth
pair-Sorted i j x y h e f = ground (arith, h, e, f)

binary_search-IsAnswer_example :
    (r : Option ℕ) × (binary_search pair 3 ≡ some r) × IsAnswer pair 3 r
binary_search-IsAnswer_example = binary_search-IsAnswer pair 3 pair-Sorted

-- push 3, push 1, push 2, pop, pop
abbrev demo_calls : List Call
demo_calls = pushes 3 ∷ pushes 1 ∷ pushes 2 ∷ pops ∷ pops ∷ []

demo_minimum : MinStack.get_min (MinStack.calls demo_calls MinStack.init) ≡ some 3
unfolding program
demo_minimum = refl

calls-values_example :
    (values (MinStack.calls demo_calls MinStack.init) ≡ 3 ∷ [])
    × (MinStack.top (MinStack.calls demo_calls MinStack.init) ≡ some 3)
    × (MinStack.get_min (MinStack.calls demo_calls MinStack.init) ≡ some 3)
calls-values_example = calls-values demo_calls
