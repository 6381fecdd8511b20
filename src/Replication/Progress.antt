-- ===== src/Replication/Progress.antt =====
-- The order in which the slave applies the transactions, and its progress (replication_sim.py).
use mathlib.Core.List.{append_assoc, append-nil}
use mathlib.Core.Path.{ap₂}
use assets_system.Prelude.{
  ℕ, zero, suc, ◌+◌, ◌-◌, ◌≤◌, ◌<◌, ◌≡◌, refl, sym, ap, ◌∙◌, List, [], ◌∷◌, ◌++◌, length,
  length-append, arith,
}
use assets_system.Replication.{
  Trx, ReplicationSimulator, master_write, transfer, io_thread, apply_some, lag, sql_thread, run,
}

-- All transactions ever written, oldest first: the applied, the relayed, those still on the master.
abbrev pub history : ReplicationSimulator → List Trx
history s = s.applied_log ++ (s.relay_log ++ s.master_log)

pub data Step : ReplicationSimulator → ReplicationSimulator → Type 0 where
  io : (s : ReplicationSimulator) → Step s (io_thread s)
  sql : (s : ReplicationSimulator) → Step s (sql_thread s)

pub data Reach (s : ReplicationSimulator) : ReplicationSimulator → Type 0 where
  here : Reach s s
  next : {t u : ReplicationSimulator} → Reach s t → Step t u → Reach s u

transfer-history :
    (s : ReplicationSimulator) (master : List Trx)
    → s.master_log ≡ master
    → history (transfer s master) ≡ history s
unfolding transfer
transfer-history s [] e = refl
transfer-history s (trx ∷ rest) e = rw e (simp append_assoc)

apply_some-append :
    (n : ℕ) (relay applied : List Trx)
    → (apply_some n relay applied).1 ++ (apply_some n relay applied).0 ≡ applied ++ relay
unfolding apply_some
apply_some-append zero relay applied = refl
apply_some-append (suc n) [] applied = refl
apply_some-append (suc n) (trx ∷ relay) applied =
    apply_some-append n relay (applied ++ trx ∷ []) ∙ append_assoc applied (trx ∷ []) relay

io_thread-history : (s : ReplicationSimulator) → history (io_thread s) ≡ history s
unfolding io_thread
io_thread-history s = transfer-history s s.master_log refl

sql_thread-history : (s : ReplicationSimulator) → history (sql_thread s) ≡ history s
unfolding sql_thread
sql_thread-history s =
    sym (append_assoc _ _ s.master_log)
    ∙ ap (λ l. l ++ s.master_log) (apply_some-append s.slave_workers s.relay_log s.applied_log)
    ∙ append_assoc s.applied_log s.relay_log s.master_log

-- In whatever order the two threads run, no transaction is lost, repeated or reordered: the
-- applied log, the relay log and the master log in a row stay the same list.
Reach-history : {s u : ReplicationSimulator} → Reach s u → history u ≡ history s
Reach-history here = refl
Reach-history (next r (io t)) = io_thread-history t ∙ Reach-history r
Reach-history (next r (sql t)) = sql_thread-history t ∙ Reach-history r

-- A write adds its transaction behind all others, with a clock value of its own.
history-master_write :
    (s : ReplicationSimulator) (trx_size : ℕ)
    → history (master_write s trx_size) ≡ history s ++ (s.clock + 1, trx_size) ∷ []
unfolding master_write
history-master_write s trx_size = simp append_assoc

-- what is not applied
abbrev pub outstanding : ReplicationSimulator → ℕ
outstanding s = length s.relay_log + length s.master_log

length-apply_some :
    (n : ℕ) (relay applied : List Trx) → length (apply_some n relay applied).0 ≡ length relay - n
unfolding apply_some
length-apply_some zero relay applied = omega arith
length-apply_some (suc n) [] applied = omega arith
length-apply_some (suc n) (trx ∷ relay) applied =
    omega (arith, length-apply_some n relay (applied ++ trx ∷ []))

length-transfer :
    (s : ReplicationSimulator) (master : List Trx)
    → s.master_log ≡ master
    → (length (transfer s master).master_log ≡ length master - 1)
      × (length (transfer s master).relay_log + length (transfer s master).master_log
          ≡ outstanding s)
      × ((transfer s master).slave_workers ≡ s.slave_workers)
unfolding transfer
length-transfer s [] e = (rw e, refl, refl)
length-transfer s (trx ∷ rest) e =
    rw e (omega arith, omega (arith, length-append s.relay_log (trx ∷ [])), refl)

-- One round of both threads.
round_outstanding :
    (s : ReplicationSimulator)
    → 0 < s.slave_workers
    → outstanding (sql_thread (io_thread s)) ≤ outstanding s - 1
unfolding sql_thread io_thread
round_outstanding s h = omega (
  arith,
  length-transfer s s.master_log refl,
  length-apply_some (transfer s s.master_log).slave_workers (transfer s s.master_log).relay_log
      (transfer s s.master_log).applied_log,
)

slave_workers-round :
    (s : ReplicationSimulator) → (sql_thread (io_thread s)).slave_workers ≡ s.slave_workers
unfolding sql_thread io_thread
slave_workers-round s = (length-transfer s s.master_log refl).2

seconds_behind_master-sql_thread :
    (s : ReplicationSimulator) → (sql_thread s).seconds_behind_master ≡ outstanding (sql_thread s)
unfolding sql_thread
seconds_behind_master-sql_thread s = lag-length s.master_log _
  where
    lag-length : (master relay : List Trx) → lag master relay ≡ length relay + length master
    lag-length [] relay = omega arith
    lag-length (trx ∷ master) relay = omega arith

length_zero : (l : List Trx) → length l ≡ 0 → l ≡ []
length_zero [] h = refl
length_zero (trx ∷ l) h = absurd (omega arith)

outstanding-run :
    (n : ℕ) (s : ReplicationSimulator)
    → 0 < s.slave_workers
    → outstanding (run n s) ≤ outstanding s - n
unfolding run
outstanding-run zero s h = omega arith
outstanding-run (suc n) s h = omega (
  arith,
  outstanding-run n (sql_thread (io_thread s)) (omega (arith, slave_workers-round s)),
  round_outstanding s h,
)

history-run : (n : ℕ) (s : ReplicationSimulator) → history (run n s) ≡ history s
unfolding run
history-run zero s = refl
history-run (suc n) s =
    history-run n (sql_thread (io_thread s))
    ∙ sql_thread-history (io_thread s)
    ∙ io_thread-history s

seconds_behind_master-run :
    (n : ℕ) (s : ReplicationSimulator)
    → s.seconds_behind_master ≡ outstanding s
    → (run n s).seconds_behind_master ≡ outstanding (run n s)
unfolding run
seconds_behind_master-run zero s h = h
seconds_behind_master-run (suc n) s h =
    seconds_behind_master-run n (sql_thread (io_thread s))
      (seconds_behind_master-sql_thread (io_thread s))

seconds_behind_master-run-suc :
    (n : ℕ) (s : ReplicationSimulator)
    → (run (suc n) s).seconds_behind_master ≡ outstanding (run (suc n) s)
unfolding run
seconds_behind_master-run-suc n s =
    seconds_behind_master-run n (sql_thread (io_thread s))
      (seconds_behind_master-sql_thread (io_thread s))

-- A slave with at least one worker catches up: after as many rounds as there are transactions not
-- yet applied, and one round at least, it has applied every transaction in the order of the
-- writes, both queues are empty and the reported lag is 0.
pub run-catches_up :
    (n : ℕ) (s : ReplicationSimulator)
    → 0 < s.slave_workers
    → outstanding s ≤ suc n
    → ((run (suc n) s).applied_log ≡ history s)
      × ((run (suc n) s).relay_log ≡ [])
      × ((run (suc n) s).master_log ≡ [])
      × ((run (suc n) s).seconds_behind_master ≡ 0)
run-catches_up n s h enough =
    let u = run (suc n) s in
    let bound = outstanding-run (suc n) s h in
    let relay : u.relay_log ≡ [] = length_zero u.relay_log (omega arith) in
    let master : u.master_log ≡ [] = length_zero u.master_log (omega arith) in
    (
      sym (append-nil u.applied_log)
          ∙ ap (λ l. u.applied_log ++ l) (ap₂ ◌++◌ (sym relay) (sym master))
          ∙ history-run (suc n) s,
      relay,
      master,
      omega (arith, seconds_behind_master-run-suc n s),
    )
