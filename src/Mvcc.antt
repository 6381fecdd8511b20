-- ===== src/Mvcc.antt =====
-- systems-engineering/database-systems/impl/mvcc_lab/mvcc.py: row versions, read views and the
-- store, over any type of keys with a decidable equality and any type of values. A Python `set`
-- of transaction ids is a list; `None` for a version is `absent`.
pub mod Visibility
pub mod Reads
pub mod Snapshot
mod Tests
use assets_system.Prelude.Dict
use assets_system.Prelude.Dict.{Dict}
use assets_system.Prelude.{
  ℕ, ◌+◌, min, Bool, true, false, Option, none, some, List, [], ◌∷◌, ltb, leb, if◌then◌else◌,
  contains, add, discard,
}

pub data RowVersion {ℓ} (V : Type ℓ) : Type ℓ where
  absent : RowVersion V
  version : ℕ → V → RowVersion V → RowVersion V

pub record ReadView : Type 0 where
  pub m_ids : List ℕ
  pub min_trx_id : ℕ
  pub max_trx_id : ℕ
  pub creator_trx_id : ℕ

unfoldable pub is_visible : ReadView → ℕ → Bool
is_visible view trx_id =
    if ltb trx_id view.min_trx_id
    then true
    else if leb view.max_trx_id trx_id
    then false
    else if contains view.m_ids trx_id
    then false
    else true

-- `min(active_trx) if active_trx else tid`
unfoldable pub min_active : ℕ → List ℕ → ℕ
min_active tid [] = tid
min_active tid (x ∷ []) = x
min_active tid (x ∷ y ∷ xs) = min x (min_active tid (y ∷ xs))

pub record MvccStore {ℓ} (K V : Type ℓ) : Type ℓ where
  pub rows : Dict K (RowVersion V)
  pub trx_counter : ℕ
  pub active_trx : List ℕ

-- the loop of `_read_with_view`
unfoldable pub first_visible {ℓ} : {V : Type ℓ} → ReadView → RowVersion V → Option V
first_visible view absent = none
first_visible view (version trx_id value prev) =
    if is_visible view trx_id then some value else first_visible view prev

unfoldable pub row_or_absent {ℓ} : {V : Type ℓ} → Option (RowVersion V) → RowVersion V
row_or_absent none = absent
row_or_absent (some ver) = ver

unfoldable pub init {ℓ} : {K V : Type ℓ} → MvccStore K V
init = record { rows = []; trx_counter = 0; active_trx = [] }

module _ {ℓ} {K V : Type ℓ} where
  -- The id of the new transaction stands beside the new state.
  unfoldable pub begin_trx : MvccStore K V → MvccStore K V × ℕ
  begin_trx s =
      let tid = s.trx_counter + 1 in
      (record s { trx_counter = tid; active_trx = add tid s.active_trx }, tid)

  unfoldable pub commit_trx : MvccStore K V → ℕ → MvccStore K V
  commit_trx s tid = record s { active_trx = discard tid s.active_trx }

  unfoldable pub make_read_view : MvccStore K V → ℕ → ReadView
  make_read_view s tid = record {
    m_ids = discard tid s.active_trx;
    min_trx_id = min_active tid s.active_trx;
    max_trx_id = s.trx_counter + 1;
    creator_trx_id = tid;
  }

module _ {ℓ} {K V : Type ℓ} (dec : Discrete K) where
  -- `self.rows.get(key)`
  unfoldable pub row : MvccStore K V → K → RowVersion V
  unfolding row_or_absent
  row s key = row_or_absent (Dict.get dec key s.rows)

  unfoldable pub write : MvccStore K V → ℕ → K → V → MvccStore K V
  write s tid key value = record s {
    rows = Dict.set dec key (version tid value (row s key)) s.rows;
  }

  unfoldable pub read_with_view : MvccStore K V → K → ReadView → Option V
  read_with_view s key view = first_visible view (row s key)

  unfoldable pub read_rc : MvccStore K V → ℕ → K → Option V
  read_rc s tid key = read_with_view s key (make_read_view s tid)

  unfoldable pub read_rr : MvccStore K V → ℕ → K → ReadView → Option V
  read_rr s tid key view = read_with_view s key view
