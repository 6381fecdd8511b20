-- ===== src/Wal/Reimpl/Agreement.antt =====
-- The two implementations of the log side by side (wal_simulator.py and re_impl/wal.py).
use mathlib.Core.List.{map-append}
use mathlib.Core.Option
use assets_system.Prelude.Dict
use assets_system.Prelude.Dict.{Dict}
use assets_system.Prelude.{
  ℕ, ◌<◌, ◌≡◌, refl, ap, ◌∙◌, true, false, some, List, [], ◌∷◌, ◌++◌, map, arith, All,
}
use assets_system.Wal
use assets_system.Wal.{LogRecord, WalSimulator}
use assets_system.Wal.Recovery.{redo_all-append}
use assets_system.Wal.Reimpl
use assets_system.Wal.Reimpl.{WalLogRecord}

module _ {ℓ} {K V : Type ℓ} where
  abbrev pub to_record : LogRecord K V → WalLogRecord K V
  to_record r = record {
    lsn = r.lsn;
    page_id = r.page_id;
    old_val = r.old_val;
    new_val = r.new_val;
    committed = r.committed;
  }

  abbrev pub to_wal : WalSimulator K V → Reimpl.Wal K V
  to_wal s = record {
    logger_buffer = map to_record s.log_buffer;
    log_files = map to_record s.log_file;
    data_pages = s.data_pages;
    lsn_counter = s.lsn_counter;
    checkpoint_lsn = s.checkpoint_lsn;
    active_transactions = s.active_trx;
  }

  map-mark :
      (lsn : ℕ) (rs : List (LogRecord K V))
      → map to_record (map (Wal.mark lsn) rs) ≡ map (Reimpl.mark lsn) (map to_record rs)
  unfolding Wal.mark Reimpl.mark
  map-mark lsn [] = refl
  map-mark lsn (r ∷ rs) = ground (arith, map-mark lsn rs)

  max_committed-map :
      (rs : List (LogRecord K V)) → Reimpl.max_committed (map to_record rs) ≡ Wal.max_committed rs
  unfolding Wal.max_committed Reimpl.max_committed
  max_committed-map [] = refl
  max_committed-map (r ∷ rs) = rw (max_committed-map rs)

  to_wal-checkpoint :
      (s : WalSimulator K V) → Option.map to_wal (Wal.checkpoint s) ≡ Reimpl.checkpoint (to_wal s)
  unfolding Wal.checkpoint Reimpl.checkpoint
  to_wal-checkpoint s = ground (arith, max_committed-map s.log_file)

  to_wal-write :
      (s : WalSimulator K V) (t : ℕ) (p : K) (o v : V)
      → to_wal (Wal.write s t p o v).0 ≡ (Reimpl.write (to_wal s) t p o v).0
  unfolding Wal.write Reimpl.write
  to_wal-write s t p o v = simp map-append

  to_wal-commit :
      (s : WalSimulator K V) (t lsn : ℕ)
      → to_wal (Wal.commit s t lsn) ≡ Reimpl.commit (to_wal s) t lsn
  unfolding Wal.commit Reimpl.commit
  to_wal-commit s t lsn = simp (map-append, map-mark)

module _ {ℓ} {K V : Type ℓ} (dec : Discrete K) where
  -- Seen through the renaming of the fields, both implementations do the same in every method but
  -- `recover`: the states, the LSNs, the logs returned by a crash and the errors are the same.
  pub to_wal-methods :
      (s : WalSimulator K V) (t lsn : ℕ) (p : K) (o v : V)
      → (to_wal (Wal.begin s t) ≡ Reimpl.begin (to_wal s) t)
        × (to_wal (Wal.write s t p o v).0 ≡ (Reimpl.write (to_wal s) t p o v).0)
        × ((Wal.write s t p o v).1 ≡ (Reimpl.write (to_wal s) t p o v).1)
        × (to_wal (Wal.commit s t lsn) ≡ Reimpl.commit (to_wal s) t lsn)
        × (to_wal (Wal.modify_page dec s p v) ≡ Reimpl.modify_pages dec (to_wal s) p v)
        × (Option.map to_wal (Wal.checkpoint s) ≡ Reimpl.checkpoint (to_wal s))
        × (to_wal (Wal.crash s).0 ≡ (Reimpl.crash (to_wal s)).0)
        × (map to_record (Wal.crash s).1 ≡ (Reimpl.crash (to_wal s)).1)
  unfolding Wal.begin Reimpl.begin Wal.modify_page Reimpl.modify_pages Wal.crash Reimpl.crash
      Wal.write Reimpl.write
  to_wal-methods s t lsn p o v = (
    refl,
    to_wal-write s t p o v,
    refl,
    to_wal-commit s t lsn,
    refl,
    to_wal-checkpoint s,
    refl,
    refl,
  )

  replay-redo_all :
      (c : ℕ) (log : List (LogRecord K V)) (pages : Dict K V)
      → All (λ r. (c < r.lsn) × (r.committed ≡ true)) log
      → Reimpl.replay dec c (map to_record log) pages ≡ Wal.redo_all dec c log pages
  unfolding Reimpl.replay Wal.redo_all Wal.redo
  replay-redo_all c [] pages h = refl
  replay-redo_all c (r ∷ log) pages h =
      ground (arith, replay-redo_all c log (Dict.set dec r.page_id r.new_val pages) h.1)

  -- On a log whose records all are committed and lie past the checkpoint, both recoveries give
  -- the same state.
  to_wal-recover :
      (s : WalSimulator K V) (log : List (LogRecord K V))
      → All (λ r. (s.checkpoint_lsn < r.lsn) × (r.committed ≡ true)) log
      → to_wal (Wal.recover dec s log) ≡ Reimpl.recover dec (to_wal s) (map to_record log)
  unfolding Wal.recover Reimpl.recover
  to_wal-recover s log h = rw (replay-redo_all s.checkpoint_lsn log s.data_pages h)

  replay-append :
      (c : ℕ) (xs ys : List (WalLogRecord K V)) (pages : Dict K V)
      → Reimpl.replay dec c (xs ++ ys) pages ≡ Reimpl.replay dec c ys (Reimpl.replay dec c xs pages)
  unfolding Reimpl.replay
  replay-append c [] ys pages = refl
  replay-append c (x ∷ xs) ys pages = replay-append c xs ys _

  replay_last :
      (c : ℕ) (r : LogRecord K V) (pages : Dict K V)
      → c < r.lsn
      → Dict.get dec r.page_id (Reimpl.replay dec c (to_record r ∷ []) pages) ≡ some r.new_val
  unfolding Reimpl.replay
  replay_last c r pages h = ground (arith, Dict.get-set_self dec r.page_id r.new_val pages)

  redo_all_last :
      (c : ℕ) (r : LogRecord K V) (pages : Dict K V)
      → r.committed ≡ false
      → Wal.redo_all dec c (r ∷ []) pages ≡ pages
  unfolding Wal.redo_all Wal.redo
  redo_all_last c r pages h = ground arith

  -- They differ where the log ends in a record past the checkpoint that is not committed: the
  -- second implementation writes its value to the page, the first skips it.
  recover_uncommitted :
      (s : WalSimulator K V) (log : List (LogRecord K V)) (r : LogRecord K V)
      → s.checkpoint_lsn < r.lsn
      → r.committed ≡ false
      → (Dict.get dec r.page_id
            (Reimpl.recover dec (to_wal s) (map to_record (log ++ r ∷ []))).data_pages
          ≡ some r.new_val)
        × (Wal.recover dec s (log ++ r ∷ []) ≡ Wal.recover dec s log)
  unfolding Wal.recover Reimpl.recover
  recover_uncommitted s log r h u = (
    rw (map-append, replay-append) (replay_last s.checkpoint_lsn r _ h),
    ap (λ pages. record s { data_pages = pages })
        (redo_all-append dec s.checkpoint_lsn log (r ∷ []) s.data_pages
          ∙ redo_all_last s.checkpoint_lsn r _ u),
  )
