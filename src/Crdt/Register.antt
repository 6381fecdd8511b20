-- ===== src/Crdt/Register.antt =====
-- The last-write-wins register (crdt.py, `LWWRegister`): where two replicas agree after merging.
use assets_system.Prelude.{ℕ, ◌≡◌, ◌≢◌, Option, arith}
use assets_system.Crdt.{LwwRegister, merge_register}

module _ {ℓ} {K V : Type ℓ} where
  -- What a reader of the register sees.
  abbrev pub content : LwwRegister K V → ℕ × Option V
  content r = (r.timestamp, r.value)

  -- Two replicas that merge each other's state agree if their timestamps differ.
  content-merge_register_comm :
      (a b : LwwRegister K V)
      → a.timestamp ≢ b.timestamp
      → content (merge_register a b) ≡ content (merge_register b a)
  unfolding merge_register
  content-merge_register_comm a b h = ground arith
