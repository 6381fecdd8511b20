-- ===== src/MiniFramework/MiniScheduler/Live.antt =====
-- The periodic tasks that mini_scheduler.py keeps.
use mathlib.Core.Option.{some-injective}
use assets_system.Prelude.{
  ℕ, ◌+◌, ◌≤◌, ◌≡◌, ◌≢◌, refl, sym, ap, ◌∙◌, inl, inr, Bool, true, false, ◌&&◌, not, Option, none,
  some, List, [], ◌∷◌, ◌++◌, map, leb, ltb, if◌then◌else◌, ◌==◌, All, arith, Bool-cases,
  Option-cases,
}
use assets_system.MiniFramework.MiniScheduler.{
  ScheduledTask, MiniScheduler, insert, sort, append, schedule_once, schedule_periodic, cancel_task,
  cancel, stop, begin_round, end_round, Action, schedules_once, schedules_periodic, cancels, begins,
  ends, stops, step, run,
}

abbrev is_periodic : Option ℕ → Bool
is_periodic none = false
is_periodic (some interval) = true

-- 1 for a periodic task with the id that is not cancelled
abbrev live_task : ℕ → ScheduledTask → ℕ
live_task id t = if (t.id == id) && (is_periodic t.interval && not t.cancelled) then 1 else 0

abbrev live_tasks : ℕ → List ScheduledTask → ℕ
live_tasks id [] = 0
live_tasks id (t ∷ tasks) = live_task id t + live_tasks id tasks

abbrev live_running : ℕ → Option (ScheduledTask × ℕ) → ℕ
live_running id none = 0
live_running id (some (task, now)) = live_task id task

-- How many periodic tasks with the id wait or are awaited, and are not cancelled.
abbrev pub live : ℕ → MiniScheduler → ℕ
live id s = live_tasks id s.tasks + live_running id s.running

live_tasks-insert :
    (id : ℕ) (task : ScheduledTask) (tasks : List ScheduledTask)
    → live_tasks id (insert task tasks) ≡ live_task id task + live_tasks id tasks
unfolding insert
live_tasks-insert id task [] = refl
live_tasks-insert id task (t ∷ tasks) = elim (Bool-cases (leb task.next_run t.next_run)) [
  | inl e ↦ rw (e, insert) refl
  | inr e ↦ rw (e, insert) (omega (arith, live_tasks-insert id task tasks))
]

live_tasks-sort :
    (id : ℕ) (tasks : List ScheduledTask) → live_tasks id (sort tasks) ≡ live_tasks id tasks
unfolding sort
live_tasks-sort id [] = refl
live_tasks-sort id (t ∷ tasks) =
    omega (arith, live_tasks-insert id t (sort tasks), live_tasks-sort id tasks)

live_tasks-append :
    (id : ℕ) (task : ScheduledTask) (tasks : List ScheduledTask)
    → live_tasks id (tasks ++ task ∷ []) ≡ live_task id task + live_tasks id tasks
live_tasks-append id task [] = refl
live_tasks-append id task (t ∷ tasks) = omega (arith, live_tasks-append id task tasks)

live-append :
    (id : ℕ) (task : ScheduledTask) (s : MiniScheduler)
    → live id (append task s) ≡ live_task id task + live id s
unfolding append
live-append id task s =
    omega (arith, live_tasks-sort id (s.tasks ++ task ∷ []), live_tasks-append id task s.tasks)

-- The action does not cancel the task or the loop.
abbrev pub Spares : ℕ → Action → Type 0
Spares id (cancels other) = other ≢ id
Spares id (schedules_once now delay other) = Unit
Spares id (schedules_periodic now interval other) = Unit
Spares id (begins now) = Unit
Spares id ends = Unit
Spares id stops = ⊥

live_task-cancel :
    (id other : ℕ) (t : ScheduledTask)
    → other ≢ id
    → live_task id (cancel_task other t) ≡ live_task id t
unfolding cancel_task
live_task-cancel id other t h = elim (Bool-cases (t.id == other)) [
  | inl e ↦ rw (e, cancel_task) (ground (arith, e, h))
  | inr e ↦ rw (e, cancel_task) refl
]

live_tasks-cancel :
    (id other : ℕ) (tasks : List ScheduledTask)
    → other ≢ id
    → live_tasks id (map (cancel_task other) tasks) ≡ live_tasks id tasks
live_tasks-cancel id other [] h = refl
live_tasks-cancel id other (t ∷ tasks) h =
    omega (arith, live_task-cancel id other t h, live_tasks-cancel id other tasks h)

live-cancel :
    (id other : ℕ) (running : Option (ScheduledTask × ℕ)) (s : MiniScheduler)
    → s.running ≡ running
    → other ≢ id
    → live id (cancel other s) ≡ live id s
unfolding cancel
live-cancel id other none s r h = rw r (omega (arith, live_tasks-cancel id other s.tasks h))
live-cancel id other (some (task, now)) s r h =
    rw r (omega (arith, live_tasks-cancel id other s.tasks h, live_task-cancel id other task h))

-- The three ends of a round, where its two tests come out in some way.
live-begun :
    (cancelled early : Bool) (id now : ℕ) (task : ScheduledTask) (rest : List ScheduledTask)
    (s : MiniScheduler)
    → task.cancelled ≡ cancelled
    → live_tasks id s.tasks ≡ live_task id task + live_tasks id rest
    → live_running id s.running ≡ 0
    → live id (
        if cancelled
        then record s { tasks = rest }
        else if early
        then s
        else record s { tasks = rest; running = some (task, now) })
      ≡ live id s
live-begun true early id now task rest s c count idle = ground (arith, c, count)
live-begun false true id now task rest s c count idle = refl
live-begun false false id now task rest s c count idle = omega (arith, count, idle)

live-begin_round :
    (id now : ℕ) (tasks : List ScheduledTask) (s : MiniScheduler)
    → s.tasks ≡ tasks
    → s.running ≡ none
    → live id (begin_round now tasks s) ≡ live id s
unfolding begin_round
live-begin_round id now [] s e r = refl
live-begin_round id now (task ∷ rest) s e r =
    live-begun task.cancelled (ltb now task.next_run) id now task rest s refl (ap (live_tasks id) e)
      (ap (live_running id) r)

live-end_round :
    (id : ℕ) (task : ScheduledTask) (now : ℕ) (s : MiniScheduler)
    → s.running ≡ some (task, now)
    → live id (end_round task now s) ≡ live id s
unfolding end_round
live-end_round id task now s r =
    let awaited = ap (live_running id) r in
    elim (Option-cases task.interval) [
      | inl e ↦ rw (e, end_round) (ground (arith, awaited, e))
      | inr (interval, e) ↦
          rw (e, end_round)
            (elim (Bool-cases task.cancelled) [
              | inl c ↦ rw c (ground (arith, awaited, c))
              | inr c ↦ rw c (
                  ground (
                    arith,
                    awaited,
                    c,
                    e,
                    live-append id
                        (record {
                          id = task.id;
                          next_run = now + interval;
                          interval = some interval;
                          cancelled = false;
                        })
                        (record s { running = none }),
                  ))
            ])
    ]

live-begins :
    (id now : ℕ) (running : Option (ScheduledTask × ℕ)) (s t : MiniScheduler)
    → s.running ≡ running
    → step (begins now) s ≡ some t
    → live id t ≡ live id s
unfolding step
live-begins id now none s t r e =
    let e' : (if s.stopped then none else some (begin_round now s.tasks s)) ≡ some t =
      sym (rw r refl) ∙ e in
    elim (Bool-cases s.stopped) [
      | inl c ↦ let bad : none ≡ some t = sym (rw c refl) ∙ e' in cc
      | inr c ↦
          let same : some (begin_round now s.tasks s) ≡ some t = sym (rw c refl) ∙ e' in
          sym (ap (live id) (some-injective _ _ same)) ∙ live-begin_round id now s.tasks s refl r
    ]
live-begins id now (some w) s t r e = let bad : none ≡ some t = sym (rw r refl) ∙ e in cc

live-ends :
    (id : ℕ) (running : Option (ScheduledTask × ℕ)) (s t : MiniScheduler)
    → s.running ≡ running
    → step ends s ≡ some t
    → live id t ≡ live id s
unfolding step
live-ends id none s t r e = let bad : none ≡ some t = sym (rw r refl) ∙ e in cc
live-ends id (some (task, now)) s t r e =
    let same : some (end_round task now s) ≡ some t = sym (rw r refl) ∙ e in
    sym (ap (live id) (some-injective _ _ same)) ∙ live-end_round id task now s r

live-step :
    (id : ℕ) (a : Action) (s t : MiniScheduler)
    → Spares id a
    → step a s ≡ some t
    → live id s ≤ live id t
unfolding step schedule_once schedule_periodic stop
live-step id (schedules_once now delay other) s t h e = omega (
  arith,
  ap (live id) (some-injective _ _ e),
  live-append id (record { id = other; next_run = now + delay; interval = none; cancelled = false })
      s,
)
live-step id (schedules_periodic now interval other) s t h e = omega (
  arith,
  ap (live id) (some-injective _ _ e),
  live-append id
      (record {
        id = other;
        next_run = now + interval;
        interval = some interval;
        cancelled = false;
      })
      s,
)
live-step id (cancels other) s t h e =
    omega (arith, ap (live id) (some-injective _ _ e), live-cancel id other s.running s refl h)
live-step id (begins now) s t h e = omega (arith, live-begins id now s.running s t refl e)
live-step id ends s t h e = omega (arith, live-ends id s.running s t refl e)
live-step id stops s t h e = absurd h

-- In every run in which the scheduler is not stopped and no task with some id is cancelled, the number
-- of periodic tasks with that id that wait or are awaited and are not cancelled never falls.
pub live-run :
    (id : ℕ) (actions : List Action) (s t : MiniScheduler)
    → All (Spares id) actions
    → run actions s ≡ some t
    → live id s ≤ live id t
unfolding run
live-run id [] s t h e = omega (arith, ap (live id) (some-injective _ _ e))
live-run id (a ∷ actions) s t h e = elim (Option-cases (step a s)) [
  | inl k ↦ let bad : none ≡ some t = sym (rw (k, run) refl) ∙ e in cc
  | inr (u, k) ↦
      omega
        (arith, live-step id a s u h.0 k, live-run id actions u t h.1 (sym (rw (k, run) refl) ∙ e))
]
