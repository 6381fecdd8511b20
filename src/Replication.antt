-- ===== src/Replication.antt =====
-- systems-engineering/database-systems/impl/replication_lab/replication_sim.py: a master log, the
-- relay log of the slave and its applied log. A transaction is its clock value and its size. The
-- sleeps and the prints are left out.
pub mod Progress
mod Tests
use assets_system.Prelude.{ℕ, zero, suc, ◌+◌, List, [], ◌∷◌, ◌++◌, length}

abbrev pub Trx : Type 0
Trx = ℕ × ℕ

pub record ReplicationSimulator : Type 0 where
  pub master_log : List Trx
  pub relay_log : List Trx
  pub applied_log : List Trx
  pub slave_workers : ℕ
  pub seconds_behind_master : ℕ
  pub clock : ℕ

unfoldable pub init : ℕ → ReplicationSimulator
init slave_workers = record {
  master_log = [];
  relay_log = [];
  applied_log = [];
  slave_workers = slave_workers;
  seconds_behind_master = 0;
  clock = 0;
}

unfoldable pub master_write : ReplicationSimulator → ℕ → ReplicationSimulator
master_write s trx_size = record s {
  clock = s.clock + 1;
  master_log = s.master_log ++ (s.clock + 1, trx_size) ∷ [];
}

-- `master_log.popleft()` and the `append` to the relay log
unfoldable pub transfer : ReplicationSimulator → List Trx → ReplicationSimulator
transfer s [] = s
transfer s (trx ∷ rest) = record s { master_log = rest; relay_log = s.relay_log ++ trx ∷ [] }

unfoldable pub io_thread : ReplicationSimulator → ReplicationSimulator
unfolding transfer
io_thread s = transfer s s.master_log

-- The loop of `sql_thread`: the relay log and the applied log after `n` more transactions at most.
unfoldable pub apply_some : ℕ → List Trx → List Trx → List Trx × List Trx
apply_some zero relay applied = (relay, applied)
apply_some (suc n) [] applied = ([], applied)
apply_some (suc n) (trx ∷ relay) applied = apply_some n relay (applied ++ trx ∷ [])

-- the lag that `sql_thread` computes at its end
unfoldable pub lag : List Trx → List Trx → ℕ
lag [] relay = length relay
lag (trx ∷ master) relay = length (trx ∷ master) + length relay

unfoldable pub sql_thread : ReplicationSimulator → ReplicationSimulator
unfolding lag
sql_thread s =
    let (relay, applied) = apply_some s.slave_workers s.relay_log s.applied_log in
    record s {
      relay_log = relay;
      applied_log = applied;
      seconds_behind_master = lag s.master_log relay;
    }

-- The loop of the demo: `n` rounds of both threads.
unfoldable pub run : ℕ → ReplicationSimulator → ReplicationSimulator
run zero s = s
run (suc n) s = run n (sql_thread (io_thread s))
