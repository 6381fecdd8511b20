-- ===== src/Wal.antt =====
-- systems-engineering/database-systems/impl/wal_lab/wal_simulator.py: the write-ahead log with
-- its buffer, its file, the pages in memory, checkpoints, crashes and recovery, over any type of
-- page ids with a decidable equality and any type of values. The prints are left out.
-- `commit` marks the records of the buffer after it has put the same objects into the file, so
-- the file gets the marked records.
pub mod Order
pub mod Recovery
pub mod Durability
pub mod Checkpoint
pub mod Anomalies
pub mod Reimpl
mod Tests
use assets_system.Prelude.Dict
use assets_system.Prelude.Dict.{Dict}
use assets_system.Prelude.{
  ℕ, ◌+◌, max, Bool, true, false, Option, none, some, List, [], ◌∷◌, ◌++◌, map, ltb, leb, ◌&&◌,
  if◌then◌else◌, add, discard,
}

pub record LogRecord {ℓ} (K V : Type ℓ) : Type ℓ where
  pub lsn : ℕ
  pub page_id : K
  pub old_val : V
  pub new_val : V
  pub committed : Bool

pub record WalSimulator {ℓ} (K V : Type ℓ) : Type ℓ where
  pub log_buffer : List (LogRecord K V)
  pub log_file : List (LogRecord K V)
  pub data_pages : Dict K V
  pub lsn_counter : ℕ
  pub checkpoint_lsn : ℕ
  pub active_trx : List ℕ

module _ {ℓ} {K V : Type ℓ} where
  unfoldable pub init : WalSimulator K V
  init = record {
    log_buffer = [];
    log_file = [];
    data_pages = [];
    lsn_counter = 0;
    checkpoint_lsn = 0;
    active_trx = [];
  }

  unfoldable pub begin : WalSimulator K V → ℕ → WalSimulator K V
  begin s trx_id = record s { active_trx = add trx_id s.active_trx }

  -- The state, and the LSN of the new record.
  unfoldable pub write : WalSimulator K V → ℕ → K → V → V → WalSimulator K V × ℕ
  write s trx_id page_id old_val new_val =
      let lsn = s.lsn_counter + 1 in
      (
        record s {
          lsn_counter = lsn;
          log_buffer =
              s.log_buffer
              ++ record {
                lsn = lsn;
                page_id = page_id;
                old_val = old_val;
                new_val = new_val;
                committed = false;
              }
                ∷ [];
        },
        lsn,
      )

  -- the body of the loop of `commit`
  unfoldable pub mark : ℕ → LogRecord K V → LogRecord K V
  mark lsn rec = if leb rec.lsn lsn then record rec { committed = true } else rec

  unfoldable pub commit : WalSimulator K V → ℕ → ℕ → WalSimulator K V
  commit s trx_id lsn = record s {
    log_file = s.log_file ++ map (mark lsn) s.log_buffer;
    log_buffer = [];
    active_trx = discard trx_id s.active_trx;
  }

  -- `max(r.lsn for r in self.log_file if r.committed)`, which raises a ValueError (`none`) where
  -- no record is committed
  unfoldable pub max_committed : List (LogRecord K V) → Option ℕ
  max_committed [] = none
  max_committed (r ∷ rs) =
      let rest = max_committed rs in
      if r.committed then elim rest [ none ↦ some r.lsn | some m ↦ some (max r.lsn m) ] else rest

  unfoldable pub set_checkpoint : WalSimulator K V → Option ℕ → Option (WalSimulator K V)
  set_checkpoint s none = none
  set_checkpoint s (some m) = some (record s { checkpoint_lsn = m })

  unfoldable pub is_empty : List (LogRecord K V) → Bool
  is_empty [] = true
  is_empty (r ∷ rs) = false

  -- `none` is the ValueError
  unfoldable pub checkpoint : WalSimulator K V → Option (WalSimulator K V)
  unfolding set_checkpoint is_empty
  checkpoint s = if is_empty s.log_file then some s else set_checkpoint s (max_committed s.log_file)

  -- The state, and the log file that is returned for recovery.
  unfoldable pub crash : WalSimulator K V → WalSimulator K V × List (LogRecord K V)
  crash s = (record s { data_pages = []; log_buffer = []; active_trx = [] }, s.log_file)

module _ {ℓ} {K V : Type ℓ} (dec : Discrete K) where
  unfoldable pub modify_page : WalSimulator K V → K → V → WalSimulator K V
  modify_page s page_id new_val = record s {
    data_pages = Dict.set dec page_id new_val s.data_pages;
  }

  -- the test and the body of the loop of `recover`
  unfoldable pub redo : ℕ → LogRecord K V → Dict K V → Dict K V
  redo checkpoint_lsn rec pages =
      if ltb checkpoint_lsn rec.lsn && rec.committed
      then Dict.set dec rec.page_id rec.new_val pages
      else pages

  unfoldable pub redo_all : ℕ → List (LogRecord K V) → Dict K V → Dict K V
  redo_all checkpoint_lsn [] pages = pages
  redo_all checkpoint_lsn (rec ∷ log) pages =
      redo_all checkpoint_lsn log (redo checkpoint_lsn rec pages)

  unfoldable pub recover : WalSimulator K V → List (LogRecord K V) → WalSimulator K V
  recover s log = record s { data_pages = redo_all s.checkpoint_lsn log s.data_pages }
