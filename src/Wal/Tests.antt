-- ===== src/Wal/Tests.antt =====
-- The demo of wal_simulator.py, and the theorems at its states. Pages are numbers.
use mathlib.Core.Option
use assets_system.Prelude.Dict
use assets_system.Prelude.{
  ℕ, ◌≡◌, refl, Bool, true, false, some, List, [], ◌∷◌, map, arith, ℕ_discrete,
}
use assets_system.Wal
use assets_system.Wal.{LogRecord, WalSimulator, is_empty}
use assets_system.Wal.Recovery.{last_redone, or_else, crash_and_recover, get-recover}
use assets_system.Wal.Durability.{
  Call, begins, writes, commits, modifies, crashes, calls, recover-commit-write,
}
use assets_system.Wal.Reimpl
use assets_system.Wal.Reimpl.Agreement.{to_record, to_wal, to_wal-methods}

program : Unit {0}
unfolding Wal.init Wal.begin Wal.write Wal.mark Wal.commit Wal.max_committed Wal.set_checkpoint
    Wal.is_empty Wal.checkpoint Wal.crash Wal.modify_page Wal.redo Wal.redo_all Wal.recover Dict.get
    Dict.set ℕ_discrete
program = tt

abbrev entry : ℕ → ℕ → ℕ → Bool → LogRecord ℕ ℕ
entry lsn o v c = record { lsn = lsn; page_id = 5; old_val = o; new_val = v; committed = c }

-- Two transactions have written page 5 and committed.
abbrev committed : WalSimulator ℕ ℕ
committed = record {
  log_buffer = [];
  log_file = entry 1 0 100 true ∷ entry 2 100 200 true ∷ [];
  data_pages = (5, 200) ∷ [];
  lsn_counter = 2;
  checkpoint_lsn = 0;
  active_trx = [];
}

abbrev checkpointed : WalSimulator ℕ ℕ
checkpointed = record committed { checkpoint_lsn = 2 }

abbrev first_trx : WalSimulator ℕ ℕ
first_trx =
    Wal.modify_page ℕ_discrete (Wal.commit (Wal.write (Wal.begin Wal.init 1) 1 5 0 100).0 1 1) 5 100

demo_committed :
    Wal.modify_page ℕ_discrete
      (Wal.commit (Wal.write (Wal.begin first_trx 2) 2 5 100 200).0 2 2)
      5
      200
    ≡ committed
unfolding program
demo_committed = refl

demo_checkpoint : Wal.checkpoint committed ≡ some checkpointed
unfolding program
demo_checkpoint = refl

-- the third transaction of the demo, and its recovery after the crash
demo_recovered :
    (crash_and_recover ℕ_discrete
      (Wal.commit (Wal.write checkpointed 3 5 200 300).0 3 3)).data_pages
    ≡ (5, 300) ∷ []
unfolding program
demo_recovered = refl

get-recover_example :
    Dict.get ℕ_discrete 5 (Wal.recover ℕ_discrete committed committed.log_file).data_pages
    ≡ or_else ℕ_discrete
        (last_redone ℕ_discrete 0 5 committed.log_file)
        (Dict.get ℕ_discrete 5 committed.data_pages)
get-recover_example = get-recover ℕ_discrete committed committed.log_file 5

-- Another transaction writes before the commit, and then commits, and a third one writes and crashes.
abbrev before : List (Call ℕ ℕ)
before = begins 4 ∷ writes 4 6 0 60 ∷ modifies 5 300 ∷ []

abbrev after : List (Call ℕ ℕ)
after = writes 4 7 0 70 ∷ commits 4 4 ∷ writes 8 7 70 80 ∷ crashes ∷ []

recover-commit-write_example :
    Dict.get ℕ_discrete 5
      (crash_and_recover ℕ_discrete (
        calls ℕ_discrete after (
          Wal.commit
            (calls ℕ_discrete before (Wal.write committed 3 5 200 300).0)
            3
            (Wal.write committed 3 5 200 300).1))).data_pages
    ≡ some 300
recover-commit-write_example =
    recover-commit-write ℕ_discrete committed 3 5 200 300 before after (omega arith)
      (tt, (omega arith, (tt, tt))) (omega arith, (tt, (omega arith, (tt, tt))))

-- the log file holds one record, which is not committed
abbrev flushed : WalSimulator ℕ ℕ
flushed = record committed { log_file = entry 1 0 100 false ∷ [] }

to_wal-methods_example :
    (to_wal (Wal.begin committed 3) ≡ Reimpl.begin (to_wal committed) 3)
    × (to_wal (Wal.write committed 3 5 200 300).0 ≡ (Reimpl.write (to_wal committed) 3 5 200 300).0)
    × ((Wal.write committed 3 5 200 300).1 ≡ (Reimpl.write (to_wal committed) 3 5 200 300).1)
    × (to_wal (Wal.commit committed 3 2) ≡ Reimpl.commit (to_wal committed) 3 2)
    × (to_wal (Wal.modify_page ℕ_discrete committed 5 300)
        ≡ Reimpl.modify_pages ℕ_discrete (to_wal committed) 5 300)
    × (Option.map to_wal (Wal.checkpoint committed) ≡ Reimpl.checkpoint (to_wal committed))
    × (to_wal (Wal.crash committed).0 ≡ (Reimpl.crash (to_wal committed)).0)
    × (map to_record (Wal.crash committed).1 ≡ (Reimpl.crash (to_wal committed)).1)
to_wal-methods_example = to_wal-methods ℕ_discrete committed 3 2 5 200 300
