-- ===== src/ObjectModel/Tests.antt =====
-- The demo of dedup.py and groups of numbers by their last digit (group_by.py).
use assets_system.Prelude.Dict
use assets_system.Prelude.{ℕ, ◌%◌, ◌*◌, ◌≡◌, refl, List, [], ◌∷◌, map, ℕ_discrete}
use assets_system.ObjectModel.{
  contains, dedup_from, dedup, group_or_empty, add_item, group_from, group_by, having, keys,
  group-group_by, keys-group_by,
}

program : Unit {0}
unfolding contains dedup_from dedup group_or_empty add_item group_from group_by Dict.get Dict.set
    ℕ_discrete
program = tt

abbrev data_items : List ℕ
data_items = 1 ∷ 2 ∷ 2 ∷ 3 ∷ 1 ∷ 4 ∷ 3 ∷ []

dedup_demo : dedup ℕ_discrete (λ x. x) data_items ≡ 1 ∷ 2 ∷ 3 ∷ 4 ∷ []
unfolding program
dedup_demo = refl

abbrev numbers : List ℕ
numbers = 12 ∷ 31 ∷ 22 ∷ 41 ∷ []

group-group_by_example :
    group_or_empty (Dict.get ℕ_discrete 2 (group_by ℕ_discrete (λ x. x % 10) (λ x. x * 2) numbers))
    ≡ having ℕ_discrete (λ x. x % 10) (λ x. x * 2) 2 numbers
group-group_by_example = group-group_by ℕ_discrete (λ x. x % 10) (λ x. x * 2) 2 numbers

keys-group_by_example :
    keys ℕ_discrete (group_by ℕ_discrete (λ x. x % 10) (λ x. x * 2) numbers)
    ≡ map (λ x. x % 10) (dedup ℕ_discrete (λ x. x % 10) numbers)
keys-group_by_example = keys-group_by ℕ_discrete (λ x. x % 10) (λ x. x * 2) numbers
