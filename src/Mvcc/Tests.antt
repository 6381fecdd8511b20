-- ===== src/Mvcc/Tests.antt =====
-- The demo of mvcc.py, and the theorems at its stores. Key 0 stands for "x".
use assets_system.Prelude.Dict
use assets_system.Prelude.{ℕ, ◌≡◌, refl, some, [], ◌∷◌, arith, ℕ_discrete}
use assets_system.Mvcc.{
  MvccStore, absent, version, is_visible, init, begin_trx, commit_trx, make_read_view,
  read_with_view, first_visible, min_active, row, write, read_rc, read_rr,
}
use assets_system.Mvcc.Visibility.{IsWellFormed}
use assets_system.Mvcc.Reads.{IsReadable, Newest, read_rc-Newest}
use assets_system.Mvcc.Snapshot.{Step, Reach, read_rr-Reach}

program : Unit {0}
unfolding is_visible init begin_trx commit_trx make_read_view row write read_rc read_rr
    read_with_view first_visible min_active Dict.get Dict.set ℕ_discrete
program = tt

-- A has written 100 and committed, and B has begun.
abbrev started : MvccStore ℕ ℕ
started = record { rows = (0, version 1 100 absent) ∷ []; trx_counter = 2; active_trx = 2 ∷ [] }

-- C has begun and written 200.
abbrev written : MvccStore ℕ ℕ
written = record {
  rows = (0, version 3 200 (version 1 100 absent)) ∷ [];
  trx_counter = 3;
  active_trx = 3 ∷ 2 ∷ [];
}

demo_started :
    (begin_trx (commit_trx (write ℕ_discrete (begin_trx (init {K = ℕ} {V = ℕ})).0 1 0 100) 1)).0
    ≡ started
unfolding program
demo_started = refl

demo_written : write ℕ_discrete (begin_trx started).0 3 0 200 ≡ written
unfolding program
demo_written = refl

-- B reads 200 under read committed after C has committed, and 100 under repeatable read.
demo_reads :
    (read_rc ℕ_discrete (commit_trx written 3) 2 0 ≡ some 200)
    × (read_rr ℕ_discrete (commit_trx written 3) 2 0 (make_read_view started 2) ≡ some 100)
unfolding program
demo_reads = (refl, refl)

started-IsWellFormed : IsWellFormed started
started-IsWellFormed = record { issued = λ t h. ground arith }

written-IsWellFormed : IsWellFormed written
written-IsWellFormed = record { issued = λ t h. ground arith }

read_rc-Newest_example :
    Newest (IsReadable written 2) (row ℕ_discrete written 0) (read_rc ℕ_discrete written 2 0)
read_rc-Newest_example = read_rc-Newest ℕ_discrete written 2 0 written-IsWellFormed (omega arith)

abbrev c_began : MvccStore ℕ ℕ
c_began = (begin_trx started).0

abbrev c_wrote : MvccStore ℕ ℕ
c_wrote = write ℕ_discrete c_began 3 0 200

c_steps : Reach ℕ_discrete 2 started (commit_trx c_wrote 3)
unfolding begin_trx
c_steps =
    Reach.next
      (Reach.next (Reach.next Reach.here (Step.begin started))
        (Step.write_active (begin_trx started).0 3 0 200 refl (omega arith)))
      (Step.commit _ 3)

read_rr-Reach_example :
    read_rr ℕ_discrete (commit_trx c_wrote 3) 2 0 (make_read_view started 2)
    ≡ read_rr ℕ_discrete started 2 0 (make_read_view started 2)
read_rr-Reach_example =
    read_rr-Reach ℕ_discrete started (commit_trx c_wrote 3) 2 0 started-IsWellFormed (omega arith)
      c_steps
