-- ===== src/Mvcc/Snapshot.antt =====
-- Repeatable read (mvcc.py, `read_rr`): a view taken once, under any schedule of other
-- transactions.
use assets_system.Prelude.{
  ℕ, ◌+◌, ◌≤◌, ◌≡◌, ◌≢◌, refl, ◌∙◌, true, false, contains, contains-discard, contains-add, arith,
  Bool-cases,
}
use assets_system.Mvcc.{
  ReadView, MvccStore, is_visible, make_read_view, first_visible, row, begin_trx, commit_trx, write,
  read_with_view, read_rr,
}
use assets_system.Mvcc.Visibility.{IsWellFormed, min_active-issued, is_visible-make_read_view}
use assets_system.Mvcc.Reads.{row-write}

module _ {ℓ} {K V : Type ℓ} (dec : Discrete K) where
  -- What the other transactions do to the store: they begin, commit, and write while active.
  pub data Step (reader : ℕ) : MvccStore K V → MvccStore K V → Type ℓ where
    begin : (s : MvccStore K V) → Step reader s (begin_trx s).0
    commit : (s : MvccStore K V) (t : ℕ) → Step reader s (commit_trx s t)
    write_active :
        (s : MvccStore K V) (t : ℕ) (k : K) (v : V)
        → contains s.active_trx t ≡ true
        → t ≢ reader
        → Step reader s (write dec s t k v)

  pub data Reach (reader : ℕ) (s : MvccStore K V) : MvccStore K V → Type ℓ where
    here : Reach reader s s
    next : {t u : MvccStore K V} → Reach reader s t → Step reader t u → Reach reader s u

  -- The view hides every active transaction but its creator, and those to come.
  record IsHidden (view : ReadView) (s : MvccStore K V) : Type 0 where
    active :
        (t : ℕ)
        → contains s.active_trx t ≡ true
        → t ≢ view.creator_trx_id
        → is_visible view t ≡ false
    bounds : view.min_trx_id ≤ view.max_trx_id
    future : view.max_trx_id ≤ s.trx_counter + 1

  Step-IsHidden :
      (view : ReadView) {s u : MvccStore K V}
      → Step view.creator_trx_id s u
      → IsHidden view s
      → IsHidden view u
  unfolding begin_trx commit_trx write is_visible
  Step-IsHidden view (begin s) h = record {
    active = λ t a ne.
        ground
          (arith, h.active t, contains-add (s.trx_counter + 1) t s.active_trx, h.bounds, h.future);
    bounds = h.bounds;
    future = ground (arith, h.future);
  }
  Step-IsHidden view (commit s x) h = record {
    active = λ t a ne. ground (arith, h.active t, contains-discard x t s.active_trx);
    bounds = h.bounds;
    future = h.future;
  }
  Step-IsHidden view (write_active s x k v a n) h = record {
    active = h.active;
    bounds = h.bounds;
    future = h.future;
  }

  Step-read_with_view :
      (view : ReadView) (k : K) {s u : MvccStore K V}
      → Step view.creator_trx_id s u
      → IsHidden view s
      → read_with_view dec u k view ≡ read_with_view dec s k view
  unfolding read_with_view row begin_trx commit_trx first_visible
  Step-read_with_view view k (begin s) h = refl
  Step-read_with_view view k (commit s x) h = refl
  Step-read_with_view view k (write_active s x j v a n) h =
      ground (arith, row-write dec s x j k v, h.active x a n)

  Reach-IsHidden :
      (view : ReadView) (k : K) {s u : MvccStore K V}
      → Reach view.creator_trx_id s u
      → IsHidden view s
      → IsHidden view u × (read_with_view dec u k view ≡ read_with_view dec s k view)
  Reach-IsHidden view k here h = (h, refl)
  Reach-IsHidden view k (next r st) h =
      let (h', e) = Reach-IsHidden view k r h in
      (Step-IsHidden view st h', Step-read_with_view view k st h' ∙ e)

  make_read_view-IsHidden :
      (s : MvccStore K V) (tid : ℕ)
      → IsWellFormed s
      → tid ≤ s.trx_counter
      → IsHidden (make_read_view s tid) s
  unfolding make_read_view
  make_read_view-IsHidden s tid w h = record {
    active = λ t a ne. ground (
      arith,
      is_visible-make_read_view s tid w h t,
      Bool-cases (is_visible (make_read_view s tid) t),
    );
    bounds = ground (arith, min_active-issued s tid w h);
    future = omega arith;
  }

  -- A repeatable read gives the same result for as long as the transaction keeps its view: whatever
  -- other transactions begin, write while active, and commit, in any order, a read with the view
  -- that `tid` took in a well-formed store returns what it returned in that store.
  pub read_rr-Reach :
      (s u : MvccStore K V) (tid : ℕ) (k : K)
      → IsWellFormed s
      → tid ≤ s.trx_counter
      → Reach tid s u
      → read_rr dec u tid k (make_read_view s tid) ≡ read_rr dec s tid k (make_read_view s tid)
  unfolding read_rr make_read_view
  read_rr-Reach s u tid k w h r =
      (Reach-IsHidden (make_read_view s tid) k r (make_read_view-IsHidden s tid w h)).1
