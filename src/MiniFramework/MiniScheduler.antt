-- ===== src/MiniFramework/MiniScheduler.antt =====
-- mini_scheduler.py: tasks in the order of their next run. A task is known by an id, which stands for
-- its coroutine. A round of `_run` is in two parts, since other coroutines go on while it awaits a
-- task. The loop is started once; a loop that `stop` has cancelled does not start again.
use assets_system.Prelude.{
  ℕ, ◌+◌, ◌-◌, Bool, true, false, ◌&&◌, not, Option, none, some, List, [], ◌∷◌, ◌++◌, map, leb, ltb,
  if◌then◌else◌, ◌==◌,
}
pub mod Order
pub mod Live
mod Tests

pub record ScheduledTask : Type 0 where
  pub id : ℕ
  pub next_run : ℕ
  pub interval : Option ℕ
  pub cancelled : Bool

-- `running` is the task that the loop awaits, with the `now` of its round.
pub record MiniScheduler : Type 0 where
  pub tasks : List ScheduledTask
  pub stopped : Bool
  pub running : Option (ScheduledTask × ℕ)

unfoldable pub init : MiniScheduler
init = record { tasks = []; stopped = false; running = none }

-- `list.sort`, which keeps the order of equal elements
unfoldable pub insert : ScheduledTask → List ScheduledTask → List ScheduledTask
insert task [] = task ∷ []
insert task (t ∷ tasks) =
    let rest = insert task tasks in
    if leb task.next_run t.next_run then task ∷ t ∷ tasks else t ∷ rest

unfoldable pub sort : List ScheduledTask → List ScheduledTask
unfolding insert
sort [] = []
sort (t ∷ tasks) = insert t (sort tasks)

-- `self._tasks.append(task)` and `self._tasks.sort()`
unfoldable pub append : ScheduledTask → MiniScheduler → MiniScheduler
unfolding sort
append task s = record s { tasks = sort (s.tasks ++ task ∷ []) }

unfoldable pub schedule_once : ℕ → ℕ → ℕ → MiniScheduler → MiniScheduler
unfolding append
schedule_once now delay id s =
    append (record { id = id; next_run = now + delay; interval = none; cancelled = false }) s

unfoldable pub schedule_periodic : ℕ → ℕ → ℕ → MiniScheduler → MiniScheduler
unfolding append
schedule_periodic now interval id s =
    append
      (record { id = id; next_run = now + interval; interval = some interval; cancelled = false }) s

-- A caller sets the field `cancelled` of the task that it got.
unfoldable pub cancel_task : ℕ → ScheduledTask → ScheduledTask
cancel_task id task = if task.id == id then record task { cancelled = true } else task

unfoldable pub cancel : ℕ → MiniScheduler → MiniScheduler
unfolding cancel_task
cancel id s = record s {
  tasks = map (cancel_task id) s.tasks;
  running = elim s.running [ none ↦ none | some (task, now) ↦ some (cancel_task id task, now) ];
}

-- The loop is cancelled, and with it the task that it awaits, which is not put back.
unfoldable pub stop : MiniScheduler → MiniScheduler
stop s = record s { stopped = true; running = none }

-- a round of the loop up to the await; a round that waits changes nothing
unfoldable pub begin_round : ℕ → List ScheduledTask → MiniScheduler → MiniScheduler
begin_round now [] s = s
begin_round now (task ∷ rest) s =
    if task.cancelled
    then record s { tasks = rest }
    else if ltb now task.next_run
    then s
    else record s { tasks = rest; running = some (task, now) }

-- the rest of the round, after the coroutine has ended or raised
unfoldable pub end_round : ScheduledTask → ℕ → MiniScheduler → MiniScheduler
unfolding append
end_round task now s =
    let ended = record s { running = none } in
    elim task.interval [
      | none ↦ ended
      | some interval ↦
          if not task.cancelled
          then append (record task { next_run = now + interval }) ended
          else ended
    ]

pub data Action : Type 0 where
  schedules_once schedules_periodic : ℕ → ℕ → ℕ → Action
  cancels : ℕ → Action
  begins : ℕ → Action
  ends : Action
  stops : Action

-- `none` where the action cannot happen: the loop begins a round only if it is neither stopped nor
-- awaiting a task, and ends one only if it awaits one.
unfoldable pub step : Action → MiniScheduler → Option MiniScheduler
unfolding schedule_once schedule_periodic cancel stop begin_round end_round
step (schedules_once now delay id) s = some (schedule_once now delay id s)
step (schedules_periodic now interval id) s = some (schedule_periodic now interval id s)
step (cancels id) s = some (cancel id s)
step (begins now) s = elim s.running [
  | none ↦ if s.stopped then none else some (begin_round now s.tasks s)
  | some r ↦ none
]
step ends s = elim s.running [ none ↦ none | some (task, now) ↦ some (end_round task now s) ]
step stops s = some (stop s)

unfoldable pub run : List Action → MiniScheduler → Option MiniScheduler
unfolding step
run [] s = some s
run (a ∷ actions) s = elim (step a s) [ none ↦ none | some t ↦ run actions t ]
