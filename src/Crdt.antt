-- ===== src/Crdt.antt =====
-- systems-engineering/distributed-systems/impl/consistency_lab/crdt.py: the grow-only counter and
-- the last-write-wins register, over any type of node ids with a decidable equality.
pub mod Counter
pub mod Register
mod Tests
use mathlib.Core.Option
use assets_system.Prelude.Dict
use assets_system.Prelude.Dict.{Dict}
use assets_system.Prelude.{ℕ, ◌+◌, max, Option, none, some, List, [], ◌∷◌, ltb, if◌then◌else◌}

pub record GCounter (K : Type 0) : Type 0 where
  pub node_id : K
  pub payload : Dict K ℕ

pub record LwwRegister {ℓ} (K V : Type ℓ) : Type ℓ where
  pub node_id : K
  pub value : Option V
  pub timestamp : ℕ

module _ {K : Type 0} where
  unfoldable pub init_counter : K → GCounter K
  init_counter node_id = record { node_id = node_id; payload = (node_id, 0) ∷ [] }

  -- `sum(self.payload.values())`
  unfoldable pub sum : Dict K ℕ → ℕ
  sum [] = 0
  sum ((node, count) ∷ rest) = count + sum rest

  unfoldable pub value : GCounter K → ℕ
  unfolding sum
  value c = sum c.payload

module _ {K : Type 0} (dec : Discrete K) where
  -- `none` is the KeyError of a missing own entry
  unfoldable pub increment : GCounter K → Option (GCounter K)
  increment c = elim (Dict.get dec c.node_id c.payload) [
    | none ↦ none
    | some n ↦ some (record c { payload = Dict.set dec c.node_id (n + 1) c.payload })
  ]

  -- the loop of `merge` over the entries of the other counter
  unfoldable pub merge_items : Dict K ℕ → Dict K ℕ → Dict K ℕ
  merge_items payload [] = payload
  merge_items payload ((node, count) ∷ rest) =
      merge_items
        (Dict.set dec node (max (Option.get_or (Dict.get dec node payload) 0) count) payload) rest

  unfoldable pub merge : GCounter K → GCounter K → GCounter K
  unfolding merge_items
  merge c other = record c { payload = merge_items c.payload other.payload }

module _ {ℓ} {K V : Type ℓ} where
  unfoldable pub init_register : K → LwwRegister K V
  init_register node_id = record { node_id = node_id; value = none; timestamp = 0 }

  unfoldable pub set : LwwRegister K V → V → ℕ → LwwRegister K V
  set r value timestamp =
      if ltb r.timestamp timestamp
      then record r { value = some value; timestamp = timestamp }
      else r

  unfoldable pub merge_register : LwwRegister K V → LwwRegister K V → LwwRegister K V
  merge_register r other =
      if ltb r.timestamp other.timestamp
      then record r { value = other.value; timestamp = other.timestamp }
      else r
