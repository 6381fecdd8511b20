-- ===== src/Wal/Recovery.antt =====
-- What recovery rebuilds (wal_simulator.py, `recover`), against the last committed record of each
-- page.
use assets_system.Prelude.Dict
use assets_system.Prelude.Dict.{Dict}
use assets_system.Prelude.{
  ℕ, ◌≡◌, refl, ite, Bool, true, false, Option, none, some, List, [], ◌∷◌, ◌++◌, arith, ltb, ◌&&◌,
}
use assets_system.Wal
use assets_system.Wal.{LogRecord, WalSimulator, mark, redo, redo_all}

module _ {ℓ} {K V : Type ℓ} where
  abbrev pub is_redone : ℕ → LogRecord K V → Bool
  is_redone checkpoint_lsn r = ltb checkpoint_lsn r.lsn && r.committed

module _ {ℓ} {K V : Type ℓ} (dec : Discrete K) where
  -- The new value of the last record in the log that is committed, lies past the checkpoint and
  -- is about the page.
  unfoldable pub last_redone : ℕ → K → List (LogRecord K V) → Option V
  last_redone checkpoint_lsn p [] = none
  last_redone checkpoint_lsn p (r ∷ log) = elim (last_redone checkpoint_lsn p log) [
    | some v ↦ some v
    | none ↦ elim (is_redone checkpoint_lsn r) [
      | true ↦ ite (dec r.page_id p) (some r.new_val) none
      | false ↦ none
    ]
  ]

  abbrev pub or_else : Option V → Option V → Option V
  or_else (some v) o = some v
  or_else none o = o

  get-redo_all :
      (c : ℕ) (p : K) (log : List (LogRecord K V)) (pages : Dict K V)
      → Dict.get dec p (redo_all dec c log pages)
        ≡ or_else (last_redone c p log) (Dict.get dec p pages)
  unfolding redo_all last_redone redo
  get-redo_all c p [] pages = refl
  get-redo_all c p (r ∷ log) pages = ground (
    arith,
    get-redo_all c p log (redo dec c r pages),
    Dict.get-set dec r.page_id p r.new_val pages,
  )

  -- After recovery from any log, a page holds the value of the last record about it that is
  -- committed and lies past the checkpoint; a page with no such record is as it was before.
  pub get-recover :
      (s : WalSimulator K V) (log : List (LogRecord K V)) (p : K)
      → Dict.get dec p (Wal.recover dec s log).data_pages
        ≡ or_else (last_redone s.checkpoint_lsn p log) (Dict.get dec p s.data_pages)
  unfolding Wal.recover
  get-recover s log p = get-redo_all s.checkpoint_lsn p log s.data_pages

  -- A second recovery from the same log, as after a crash during recovery, changes no page.
  recover-recover :
      (s : WalSimulator K V) (log : List (LogRecord K V)) (p : K)
      → Dict.get dec p (Wal.recover dec (Wal.recover dec s log) log).data_pages
        ≡ Dict.get dec p (Wal.recover dec s log).data_pages
  unfolding Wal.recover
  recover-recover s log p = ground (
    arith,
    get-redo_all s.checkpoint_lsn p log s.data_pages,
    get-redo_all s.checkpoint_lsn p log (redo_all dec s.checkpoint_lsn log s.data_pages),
  )

  pub redo_all-append :
      (c : ℕ) (xs ys : List (LogRecord K V)) (pages : Dict K V)
      → redo_all dec c (xs ++ ys) pages ≡ redo_all dec c ys (redo_all dec c xs pages)
  unfolding redo_all
  redo_all-append c [] ys pages = refl
  redo_all-append c (x ∷ xs) ys pages = redo_all-append c xs ys (redo dec c x pages)

  -- The simulator after a crash and the recovery from the log that the crash returns.
  abbrev pub crash_and_recover : WalSimulator K V → WalSimulator K V
  crash_and_recover s = let (s', log) = Wal.crash s in Wal.recover dec s' log

  pub data_pages-crash_and_recover :
      (s : WalSimulator K V)
      → (crash_and_recover s).data_pages ≡ redo_all dec s.checkpoint_lsn s.log_file []
  unfolding Wal.recover Wal.crash
  data_pages-crash_and_recover s = refl
