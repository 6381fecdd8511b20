-- ===== src/MiniFramework/MiniScheduler/Tests.antt =====
-- Runs of mini_scheduler.py, and the theorems at them.
use assets_system.Prelude.{◌≤◌, ◌≡◌, refl, false, none, some, List, [], ◌∷◌, ◌++◌, map, arith}
use assets_system.MiniFramework.MiniScheduler.{
  MiniScheduler, init, insert, sort, append, schedule_once, schedule_periodic, cancel_task, cancel,
  stop, begin_round, end_round, Action, schedules_once, schedules_periodic, cancels, begins, ends,
  step, run,
}
use assets_system.MiniFramework.MiniScheduler.Order.{IsNext, begin_round-run}
use assets_system.MiniFramework.MiniScheduler.Live.{live, live-run}

program : Unit {0}
unfolding init insert sort append schedule_once schedule_periodic cancel_task cancel stop
    begin_round end_round step run
program = tt

-- A task in five ticks, and one every two.
abbrev planned : MiniScheduler
planned = elim (run (schedules_once 0 5 1 ∷ schedules_periodic 0 2 2 ∷ []) init) [
  | none ↦ init
  | some s ↦ s
]

abbrev rounds : List Action
rounds = begins 1 ∷ begins 2 ∷ cancels 1 ∷ ends ∷ begins 4 ∷ ends ∷ begins 6 ∷ []

abbrev later : MiniScheduler
later = elim (run rounds planned) [ none ↦ init | some s ↦ s ]

-- The cancelled task is still in the list behind the periodic one.
later-tasks : map (λ t. t.next_run) planned.tasks ++ map (λ t. t.id) later.tasks ≡ 2 ∷ 5 ∷ 2 ∷ []
unfolding program
later-tasks = refl

begin_round-run_example :
    IsNext 3
      (record { id = 2; next_run = 2; interval = some 2; cancelled = false })
      (begin_round 3 planned.tasks planned).tasks
unfolding program
begin_round-run_example =
    begin_round-run (schedules_once 0 5 1 ∷ schedules_periodic 0 2 2 ∷ []) planned 3
      (record { id = 2; next_run = 2; interval = some 2; cancelled = false }) refl refl refl

live-run_example : live 2 planned ≤ live 2 later
unfolding program
live-run_example =
    live-run 2 rounds planned later (tt, (tt, (ground arith, (tt, (tt, (tt, (tt, tt))))))) refl
