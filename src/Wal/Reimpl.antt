-- ===== src/Wal/Reimpl.antt =====
-- systems-engineering/database-systems/impl/wal_lab/re_impl/wal.py: the second implementation of
-- the log, `WAL`. The log messages and prints are left out.
pub mod Agreement
use assets_system.Prelude.Dict
use assets_system.Prelude.Dict.{Dict}
use assets_system.Prelude.{
  ℕ, ◌+◌, max, Bool, true, false, not, Option, none, some, List, [], ◌∷◌, ◌++◌, map, ltb, leb, ◌&&◌,
  if◌then◌else◌, add, discard,
}

pub record WalLogRecord {ℓ} (K V : Type ℓ) : Type ℓ where
  pub lsn : ℕ
  pub page_id : K
  pub old_val : V
  pub new_val : V
  pub committed : Bool

pub record Wal {ℓ} (K V : Type ℓ) : Type ℓ where
  pub logger_buffer : List (WalLogRecord K V)
  pub log_files : List (WalLogRecord K V)
  pub data_pages : Dict K V
  pub lsn_counter : ℕ
  pub checkpoint_lsn : ℕ
  pub active_transactions : List ℕ

module _ {ℓ} {K V : Type ℓ} where
  unfoldable pub init : Wal K V
  init = record {
    logger_buffer = [];
    log_files = [];
    data_pages = [];
    lsn_counter = 0;
    checkpoint_lsn = 0;
    active_transactions = [];
  }

  unfoldable pub begin : Wal K V → ℕ → Wal K V
  begin s transaction_id = record s {
    active_transactions = add transaction_id s.active_transactions;
  }

  unfoldable pub write : Wal K V → ℕ → K → V → V → Wal K V × ℕ
  write s transaction_id page_id old_val new_val =
      let lsn = s.lsn_counter + 1 in
      (
        record s {
          lsn_counter = lsn;
          logger_buffer =
              s.logger_buffer
              ++ record {
                lsn = lsn;
                page_id = page_id;
                old_val = old_val;
                new_val = new_val;
                committed = false;
              }
                ∷ [];
        },
        lsn,
      )

  unfoldable pub mark : ℕ → WalLogRecord K V → WalLogRecord K V
  mark lsn r = if leb r.lsn lsn then record r { committed = true } else r

  unfoldable pub commit : Wal K V → ℕ → ℕ → Wal K V
  commit s transaction_id lsn = record s {
    log_files = s.log_files ++ map (mark lsn) s.logger_buffer;
    logger_buffer = [];
    active_transactions = discard transaction_id s.active_transactions;
  }

  -- `none` where no record is committed: `max` raises a ValueError
  unfoldable pub max_committed : List (WalLogRecord K V) → Option ℕ
  max_committed [] = none
  max_committed (r ∷ rs) =
      let rest = max_committed rs in
      if r.committed then elim rest [ none ↦ some r.lsn | some m ↦ some (max r.lsn m) ] else rest

  unfoldable pub checkpoint : Wal K V → Option (Wal K V)
  checkpoint s = elim s.log_files [
    | [] ↦ some s
    | _ ∷ _ ↦ elim (max_committed s.log_files) [
      | none ↦ none
      | some m ↦ some (record s { checkpoint_lsn = m })
    ]
  ]

  unfoldable pub crash : Wal K V → Wal K V × List (WalLogRecord K V)
  crash s =
      (record s { data_pages = []; logger_buffer = []; active_transactions = [] }, s.log_files)

module _ {ℓ} {K V : Type ℓ} (dec : Discrete K) where
  unfoldable pub modify_pages : Wal K V → K → V → Wal K V
  modify_pages s page_id new_val = record s {
    data_pages = Dict.set dec page_id new_val s.data_pages;
  }

  -- the loop of `recover`: a record is skipped only if it is both up to the checkpoint and not
  -- committed
  unfoldable pub replay : ℕ → List (WalLogRecord K V) → Dict K V → Dict K V
  replay checkpoint_lsn [] pages = pages
  replay checkpoint_lsn (r ∷ records) pages = replay checkpoint_lsn records (
      if leb r.lsn checkpoint_lsn && not r.committed
      then pages
      else Dict.set dec r.page_id r.new_val pages)

  unfoldable pub recover : Wal K V → List (WalLogRecord K V) → Wal K V
  recover s records = record s { data_pages = replay s.checkpoint_lsn records s.data_pages }
