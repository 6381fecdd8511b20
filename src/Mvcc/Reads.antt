-- ===== src/Mvcc/Reads.antt =====
-- Read committed (mvcc.py, `read_rc`): which version a read returns.
use assets_system.Prelude.Dict
use assets_system.Prelude.{
  ℕ, ◌≤◌, ◌≡◌, ◌↔◌, ◌⊎◌, inl, inr, true, false, Option, none, some, contains, arith, Bool-cases,
  ite,
}
use assets_system.Mvcc.{
  RowVersion, absent, version, ReadView, MvccStore, is_visible, make_read_view, first_visible,
  row_or_absent, row, write, read_with_view, read_rc,
}
use assets_system.Mvcc.Visibility.{IsWellFormed, is_visible-make_read_view}

-- The versions of a row that a transaction may read: its own, and those of transactions that
-- were started and are no longer active.
abbrev pub IsReadable {ℓ} : {K V : Type ℓ} → MvccStore K V → ℕ → ℕ → Type 0
IsReadable s tid t = (t ≤ s.trx_counter) × ((t ≡ tid) ⊎ (contains s.active_trx t ≡ false))

-- The value of the first version, newest first, whose id satisfies `P`.
pub data Newest {ℓ} {V : Type ℓ} (P : ℕ → Type 0) : RowVersion V → Option V → Type ℓ where
  nothing : Newest P absent none
  here : {t : ℕ} {v : V} {prev : RowVersion V} → P t → Newest P (version t v prev) (some v)
  older :
      {t : ℕ} {v : V} {prev : RowVersion V} {r : Option V}
      → ¬ P t
      → Newest P prev r
      → Newest P (version t v prev) r

first_visible-Newest {ℓ} :
    {V : Type ℓ} (P : ℕ → Type 0) (view : ReadView)
    → ((t : ℕ) → (is_visible view t ≡ true) ↔ P t)
    → (ver : RowVersion V) → Newest P ver (first_visible view ver)
unfolding first_visible
first_visible-Newest P view h absent = nothing
first_visible-Newest P view h (version t v prev) = elim (Bool-cases (is_visible view t)) [
  | inl e ↦ rw e (here ((h t).0 e))
  | inr e ↦ rw e (older (λ p. cc (e, (h t).1 p)) (first_visible-Newest P view h prev))
]

pub row-write {ℓ} :
    {K V : Type ℓ} (dec : Discrete K) (s : MvccStore K V) (tid : ℕ) (k j : K) (v : V)
    → row dec (write dec s tid k v) j ≡ ite (dec k j) (version tid v (row dec s j)) (row dec s j)
unfolding row write row_or_absent
row-write dec s tid k j v =
    ground
      (arith, Dict.get-set dec k j (version tid v (row_or_absent (Dict.get dec k s.rows))) s.rows)

module _ {ℓ} {K V : Type ℓ} (dec : Discrete K) (s : MvccStore K V) (tid : ℕ) (k : K) where
  -- In a well-formed store a read committed returns the value of the newest version that the
  -- transaction wrote itself or that a transaction no longer active wrote.
  pub read_rc-Newest :
      IsWellFormed s
      → tid ≤ s.trx_counter
      → Newest (IsReadable s tid) (row dec s k) (read_rc dec s tid k)
  unfolding read_rc read_with_view
  read_rc-Newest w h =
      first_visible-Newest (IsReadable s tid) (make_read_view s tid)
        (is_visible-make_read_view s tid w h) (row dec s k)
