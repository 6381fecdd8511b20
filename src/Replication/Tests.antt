-- ===== src/Replication/Tests.antt =====
-- The demo of replication_sim.py with fixed sizes, and the theorems at its states.
use assets_system.Prelude.{◌≡◌, refl, [], ◌∷◌, arith}
use assets_system.Replication.{
  ReplicationSimulator, init, master_write, transfer, io_thread, apply_some, sql_thread, run,
}
use assets_system.Replication.Progress.{history, run-catches_up}

program : Unit {0}
unfolding init master_write transfer io_thread apply_some sql_thread run
program = tt

abbrev queued : ReplicationSimulator
queued = record {
  master_log = (1, 4) ∷ (2, 1) ∷ (3, 50) ∷ [];
  relay_log = [];
  applied_log = [];
  slave_workers = 1;
  seconds_behind_master = 0;
  clock = 3;
}

demo_queued : master_write (master_write (master_write (init 1) 4) 1) 50 ≡ queued
unfolding program
demo_queued = refl

-- Two rounds leave one transaction on the master.
demo_rounds : run 2 queued ≡ record queued {
  master_log = (3, 50) ∷ [];
  applied_log = (1, 4) ∷ (2, 1) ∷ [];
  seconds_behind_master = 1;
}
unfolding program
demo_rounds = refl

run-catches_up_example :
    ((run 3 queued).applied_log ≡ history queued)
    × ((run 3 queued).relay_log ≡ [])
    × ((run 3 queued).master_log ≡ [])
    × ((run 3 queued).seconds_behind_master ≡ 0)
run-catches_up_example = run-catches_up 2 queued (omega arith) (omega arith)
