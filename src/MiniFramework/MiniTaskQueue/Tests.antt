-- ===== src/MiniFramework/MiniTaskQueue/Tests.antt =====
-- Runs of mini_task_queue.py with one thread, and the theorems at them.
use assets_system.Prelude.{ℕ, ◌+◌, ◌≡◌, refl, true, false, none, some, List, [], ◌∷◌, length, All}
use assets_system.MiniFramework.MiniTaskQueue.{
  MiniTaskQueue, init, put, submit, is_sentinel, begin, retry, task_done, finish, put_sentinels,
  Action, submits, gets, ends, sets_stopped, worker_gets, worker_ends, step, run,
}
use assets_system.MiniFramework.MiniTaskQueue.Retries.{run-unfinished}
use assets_system.MiniFramework.MiniTaskQueue.Counts.{sum_by, is_busy, Exhausted}

program : Unit {0}
unfolding init put submit is_sentinel begin retry task_done finish put_sentinels worker_gets
    worker_ends step run
program = tt

-- A task that fails twice, where one retry is allowed, and a task that is taken.
abbrev actions : List (Action ℕ)
actions =
    submits 1 (some 7)
    ∷ gets 0
    ∷ submits 2 (some 8)
    ∷ ends 0 true
    ∷ gets 0
    ∷ ends 0 false
    ∷ gets 0
    ∷ ends 0 true
    ∷ submits 3 (some 9)
    ∷ gets 0
    ∷ []

abbrev reached : MiniTaskQueue ℕ
reached = elim (run actions (init 1 1)) [ none ↦ init 1 1 | some q ↦ q ]

reached-dead_letter : reached.dead_letter ≡ record { id = 1; payload = some 7; attempts = 2 } ∷ []
unfolding program
reached-dead_letter = refl

run-unfinished_example :
    (reached.unfinished ≡ length reached.queue + sum_by is_busy reached.workers)
    × All (Exhausted 1) reached.dead_letter
unfolding program
run-unfinished_example = run-unfinished 1 1 actions reached refl

-- A payload of None ends the only thread, and a task comes after it.
abbrev lost : MiniTaskQueue ℕ
lost = elim (run (submits 1 none ∷ gets 0 ∷ submits 2 (some 8) ∷ []) (init 1 3)) [
  | none ↦ init 1 3
  | some q ↦ q
]

abbrev later : MiniTaskQueue ℕ
later = elim (run (sets_stopped ∷ []) lost) [ none ↦ lost | some q ↦ q ]
