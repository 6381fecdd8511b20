-- ===== src/Crdt/Tests.antt =====
-- The demo of crdt.py, and the theorems at its replicas. Nodes "A" and "B" are 0 and 1.
use assets_system.Prelude.Dict
use assets_system.Prelude.{ℕ, ◌+◌, ◌≡◌, refl, ite, some, [], ◌∷◌, ℕ_discrete}
use assets_system.Crdt.{
  GCounter, LwwRegister, init_counter, value, sum, increment, merge_items, merge, set,
  merge_register,
}
use assets_system.Crdt.Counter.{IsValid, count, increment-IsValid}

program : Unit {0}
unfolding init_counter value sum increment merge_items merge set merge_register Dict.get Dict.set
    ℕ_discrete
program = tt

abbrev a : GCounter ℕ
a = record { node_id = 0; payload = (0, 2) ∷ [] }

abbrev b : GCounter ℕ
b = record { node_id = 1; payload = (1, 1) ∷ [] }

demo_increment : increment ℕ_discrete (record a { payload = (0, 1) ∷ [] }) ≡ some a
unfolding program
demo_increment = refl

demo_merge : value (merge ℕ_discrete a b) ≡ 3
unfolding program
demo_merge = refl

a-IsValid : IsValid ℕ_discrete a
unfolding program
a-IsValid = record { distinct = (refl, tt); own = (2, refl) }

b-IsValid : IsValid ℕ_discrete b
unfolding program
b-IsValid = record { distinct = (refl, tt); own = (1, refl) }

increment-IsValid_example :
    (c : GCounter ℕ) × (increment ℕ_discrete a ≡ some c)
    × IsValid ℕ_discrete c
    × (value c ≡ value a + 1)
    × ((node : ℕ)
        → count ℕ_discrete c.payload node
          ≡ ite
              (ℕ_discrete 0 node)
              (count ℕ_discrete a.payload node + 1)
              (count ℕ_discrete a.payload node))
increment-IsValid_example = increment-IsValid ℕ_discrete a a-IsValid

abbrev x : LwwRegister ℕ ℕ
x = record { node_id = 0; value = some 7; timestamp = 10 }

abbrev y : LwwRegister ℕ ℕ
y = record { node_id = 1; value = some 8; timestamp = 20 }

demo_register : (merge_register x y).value ≡ some 8
unfolding program
demo_register = refl
