-- ===== src/Mvcc/Visibility.antt =====
-- What a read view shows: transaction ids, the active set and the bounds of a view
-- (mvcc.py, `is_visible` and `_make_read_view`).
use assets_system.Prelude.{
  ℕ, ◌+◌, ◌≤◌, ◌≡◌, ◌↔◌, ◌⊎◌, inl, inr, refl, true, false, List, [], ◌∷◌, contains,
  contains-discard, contains-add, arith, Bool-cases,
}
use assets_system.Mvcc.{
  MvccStore, is_visible, min_active, make_read_view, begin_trx, commit_trx, init, write,
}

-- Every active transaction has been started.
pub record IsWellFormed {ℓ} {K V : Type ℓ} (s : MvccStore K V) : Type ℓ where
  pub issued : (t : ℕ) → contains s.active_trx t ≡ true → t ≤ s.trx_counter

min_active-le : (tid t : ℕ) (xs : List ℕ) → contains xs t ≡ true → min_active tid xs ≤ t
unfolding min_active
min_active-le tid t [] h = ground arith
min_active-le tid t (x ∷ []) h = ground arith
min_active-le tid t (x ∷ y ∷ xs) h = ground (arith, min_active-le tid t (y ∷ xs))

min_active-mem :
    (tid : ℕ) (xs : List ℕ) → (contains xs (min_active tid xs) ≡ true) ⊎ (min_active tid xs ≡ tid)
unfolding min_active
min_active-mem tid [] = inr refl
min_active-mem tid (x ∷ []) = inl (ground arith)
min_active-mem tid (x ∷ y ∷ xs) = ground (arith, min_active-mem tid (y ∷ xs))

module _ {ℓ} {K V : Type ℓ} (s : MvccStore K V) (tid : ℕ) where
  pub min_active-issued :
      IsWellFormed s → tid ≤ s.trx_counter → min_active tid s.active_trx ≤ s.trx_counter
  min_active-issued w h =
      ground (arith, min_active-mem tid s.active_trx, w.issued (min_active tid s.active_trx))

  -- A view that transaction `tid` takes in a well-formed store shows exactly the ids that were
  -- started by then and are `tid` itself or no longer active.
  pub is_visible-make_read_view :
      IsWellFormed s
      → tid ≤ s.trx_counter
      → (t : ℕ)
      → (is_visible (make_read_view s tid) t ≡ true)
        ↔ ((t ≤ s.trx_counter) × ((t ≡ tid) ⊎ (contains s.active_trx t ≡ false)))
  unfolding is_visible make_read_view
  is_visible-make_read_view w h t = ground (
    arith,
    min_active-issued w h,
    min_active-le tid t s.active_trx,
    contains-discard tid t s.active_trx,
    Bool-cases (contains s.active_trx t),
  )

module _ {ℓ} {K V : Type ℓ} where
  init-IsWellFormed : IsWellFormed (init {K = K} {V = V})
  unfolding init
  init-IsWellFormed = record { issued = λ t h. cc }

  begin_trx-IsWellFormed : (s : MvccStore K V) → IsWellFormed s → IsWellFormed (begin_trx s).0
  unfolding begin_trx
  begin_trx-IsWellFormed s w = record {
    issued = λ t h. ground (arith, w.issued t, contains-add (s.trx_counter + 1) t s.active_trx);
  }

  pub commit_trx-IsWellFormed :
      (s : MvccStore K V) (tid : ℕ) → IsWellFormed s → IsWellFormed (commit_trx s tid)
  unfolding commit_trx
  commit_trx-IsWellFormed s tid w = record {
    issued = λ t h. ground (arith, w.issued t, contains-discard tid t s.active_trx);
  }

  pub write-IsWellFormed :
      (dec : Discrete K) (s : MvccStore K V) (tid : ℕ) (k : K) (v : V)
      → IsWellFormed s
      → IsWellFormed (write dec s tid k v)
  unfolding write
  write-IsWellFormed dec s tid k v w = record { issued = w.issued }

  -- Beginning, committing and writing each keep every active transaction among those started,
  -- and the id that a beginning transaction gets was not active before and is active after.
  operations-IsWellFormed :
      (dec : Discrete K) (s : MvccStore K V) (tid : ℕ) (k : K) (v : V)
      → IsWellFormed s
      → IsWellFormed (begin_trx s).0
        × IsWellFormed (commit_trx s tid)
        × IsWellFormed (write dec s tid k v)
        × (contains s.active_trx (begin_trx s).1 ≡ false)
        × (contains (begin_trx s).0.active_trx (begin_trx s).1 ≡ true)
  unfolding begin_trx
  operations-IsWellFormed dec s tid k v w =
      let new = s.trx_counter + 1 in
      (
        begin_trx-IsWellFormed s w,
        commit_trx-IsWellFormed s tid w,
        write-IsWellFormed dec s tid k v w,
        ground (arith, w.issued new, Bool-cases (contains s.active_trx new)),
        ground (arith, contains-add new new s.active_trx),
      )
