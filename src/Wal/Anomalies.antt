-- ===== src/Wal/Anomalies.antt =====
-- Interleaved transactions in one log (wal_simulator.py): a record does not say which transaction
-- wrote it, and only the records still in the buffer are marked.
use mathlib.Core.List.{map-append, append-nil, append_assoc}
use assets_system.Prelude.Dict
use assets_system.Prelude.Dict.{Dict}
use assets_system.Prelude.{
  ℕ, ◌+◌, ◌≤◌, ◌<◌, ◌≡◌, ◌≢◌, refl, ap, ◌∙◌, false, some, List, [], ◌∷◌, ◌++◌, map, arith,
}
use assets_system.Wal
use assets_system.Wal.{LogRecord, WalSimulator, mark, redo, redo_all}
use assets_system.Wal.Order.{IsOrdered}
use assets_system.Wal.Recovery.{crash_and_recover, data_pages-crash_and_recover, redo_all-append}

module _ {ℓ} {K V : Type ℓ} (dec : Discrete K) where
  -- `owner` writes a page and `other` writes one after it; then both commit, `owner` first.
  abbrev pub interleaved : WalSimulator K V → ℕ → ℕ → K → V → V → K → V → V → WalSimulator K V
  interleaved s owner other p o v q o' v' =
      let (s1, lsn) = Wal.write s owner p o v in
      let (s2, lsn') = Wal.write s1 other q o' v' in Wal.commit (Wal.commit s2 owner lsn) other lsn'

  redo_all-unmarked :
      (c n : ℕ) (xs : List (LogRecord K V)) (r : LogRecord K V) (pages : Dict K V)
      → r.committed ≡ false
      → n < r.lsn
      → redo_all dec c (xs ++ mark n r ∷ []) pages ≡ redo_all dec c xs pages
  unfolding redo_all redo mark
  redo_all-unmarked c n xs r pages u h =
      redo_all-append dec c xs (mark n r ∷ []) pages ∙ ground arith

  log_file-interleaved :
      (s : WalSimulator K V) (owner other : ℕ) (p : K) (o v : V) (q : K) (o' v' : V)
      → (interleaved s owner other p o v q o' v').log_file
        ≡ (Wal.commit (Wal.write s owner p o v).0 owner (s.lsn_counter + 1)).log_file
          ++ mark (s.lsn_counter + 1) (record {
            lsn = s.lsn_counter + 1 + 1;
            page_id = q;
            old_val = o';
            new_val = v';
            committed = false;
          })
            ∷ []
  unfolding Wal.commit Wal.write
  log_file-interleaved s owner other p o v q o' v' = simp (map-append, append-nil, append_assoc)

  -- The commit of the later writer is lost: after a crash, recovery rebuilds the pages that it
  -- would rebuild had that transaction written nothing.
  crash_and_recover-interleaved :
      (s : WalSimulator K V) (owner other : ℕ) (p : K) (o v : V) (q : K) (o' v' : V)
      → (crash_and_recover dec (interleaved s owner other p o v q o' v')).data_pages
        ≡ (crash_and_recover dec
            (Wal.commit (Wal.write s owner p o v).0 owner (Wal.write s owner p o v).1)).data_pages
  crash_and_recover-interleaved s owner other p o v q o' v' =
      data_pages-crash_and_recover dec (interleaved s owner other p o v q o' v')
      ∙ unfold Wal.crash Wal.recover Wal.commit Wal.write in
        (ap (λ log. redo_all dec s.checkpoint_lsn log [])
            (log_file-interleaved s owner other p o v q o' v')
          ∙ redo_all-unmarked s.checkpoint_lsn (s.lsn_counter + 1) _ _ [] refl (omega arith))

  -- the record of a write that is not marked
  abbrev unmarked : ℕ → K → V → V → LogRecord K V
  unmarked lsn p o v = record {
    lsn = lsn;
    page_id = p;
    old_val = o;
    new_val = v;
    committed = false;
  }

  log_file-commit-write-write :
      (s : WalSimulator K V) (owner other lsn : ℕ) (p : K) (o v : V) (q : K) (o' v' : V)
      → (Wal.commit (Wal.write (Wal.write s other q o' v').0 owner p o v).0 owner lsn).log_file
        ≡ (s.log_file ++ map (mark lsn) s.log_buffer)
          ++ (mark lsn (unmarked (s.lsn_counter + 1) q o' v')
              ∷ mark lsn (unmarked (s.lsn_counter + 1 + 1) p o v)
              ∷ [])
  unfolding Wal.commit Wal.write
  log_file-commit-write-write s owner other lsn p o v q o' v' = simp (map-append, append_assoc)

  get-redo_all-marked :
      (c n : ℕ) (p : K) (o v : V) (q : K) (o' v' : V) (pages : Dict K V)
      → c ≤ n
      → p ≢ q
      → Dict.get dec q (
          redo_all dec c
            (mark (n + 1 + 1) (unmarked (n + 1) q o' v')
              ∷ mark (n + 1 + 1) (unmarked (n + 1 + 1) p o v)
              ∷ [])
            pages)
        ≡ some v'
  unfolding redo_all redo mark
  get-redo_all-marked c n p o v q o' v' pages h ne =
      ground (
        arith,
        Dict.get-set_self dec q v' pages,
        Dict.get-set_ne dec p q v (Dict.set dec q v' pages),
      )

  -- A commit covers what others wrote before it: the page that another transaction wrote is
  -- recovered with the new value although that transaction has not committed.
  crash_and_recover-uncommitted :
      (s : WalSimulator K V) (owner other : ℕ) (p : K) (o v : V) (q : K) (o' v' : V)
      → IsOrdered s
      → p ≢ q
      → Dict.get dec q
          (crash_and_recover dec (
            Wal.commit
              (Wal.write (Wal.write s other q o' v').0 owner p o v).0
              owner
              (Wal.write (Wal.write s other q o' v').0 owner p o v).1)).data_pages
        ≡ some v'
  unfolding Wal.write Wal.commit
  crash_and_recover-uncommitted s owner other p o v q o' v' h ne =
      let lsn = s.lsn_counter + 1 + 1 in
      let c = s.checkpoint_lsn in
      ap (Dict.get dec q) (
        data_pages-crash_and_recover dec
          (Wal.commit (Wal.write (Wal.write s other q o' v').0 owner p o v).0 owner lsn)
        ∙ ap (λ log. redo_all dec c log [])
            (log_file-commit-write-write s owner other lsn p o v q o' v')
        ∙ redo_all-append dec c (s.log_file ++ map (mark lsn) s.log_buffer) _ [])
      ∙ get-redo_all-marked c s.lsn_counter p o v q o' v' _ h.checkpointed ne
