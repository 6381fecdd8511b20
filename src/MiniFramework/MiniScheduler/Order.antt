-- ===== src/MiniFramework/MiniScheduler/Order.antt =====
-- The order in which mini_scheduler.py runs its tasks.
use mathlib.Core.Option.{some-injective}
use mathlib.Core.Path.{subst}
use assets_system.Prelude.{
  ℕ, ◌+◌, ◌≤◌, ◌≡◌, refl, sym, ◌∙◌, inl, inr, Bool, true, false, Option, none, some, List, [], ◌∷◌,
  ◌++◌, map, leb, ltb, if◌then◌else◌, ◌==◌, All, arith, Bool-cases, Option-cases,
}
use assets_system.MiniFramework.MiniScheduler.{
  ScheduledTask, MiniScheduler, init, insert, sort, append, schedule_once, schedule_periodic,
  cancel_task, cancel, stop, begin_round, end_round, Action, schedules_once, schedules_periodic,
  cancels, begins, ends, stops, step, run,
}

-- No task of the list is due before the time.
abbrev pub NotBefore : ℕ → List ScheduledTask → Type 0
NotBefore time tasks = All (λ t. time ≤ t.next_run) tasks

abbrev pub Sorted : List ScheduledTask → Type 0
Sorted [] = Unit
Sorted (t ∷ tasks) = NotBefore t.next_run tasks × Sorted tasks

NotBefore-le :
    (a b : ℕ) (tasks : List ScheduledTask) → a ≤ b → NotBefore b tasks → NotBefore a tasks
NotBefore-le a b [] l h = tt
NotBefore-le a b (t ∷ tasks) l h = (omega (arith, l, h.0), NotBefore-le a b tasks l h.1)

NotBefore-insert :
    (time : ℕ) (task : ScheduledTask) (tasks : List ScheduledTask)
    → time ≤ task.next_run
    → NotBefore time tasks
    → NotBefore time (insert task tasks)
unfolding insert
NotBefore-insert time task [] l h = (l, tt)
NotBefore-insert time task (t ∷ tasks) l h = elim (Bool-cases (leb task.next_run t.next_run)) [
  | inl e ↦ rw (e, insert) (l, h)
  | inr e ↦ rw (e, insert) (h.0, NotBefore-insert time task tasks l h.1)
]

Sorted-insert :
    (task : ScheduledTask) (tasks : List ScheduledTask) → Sorted tasks → Sorted (insert task tasks)
unfolding insert
Sorted-insert task [] h = (tt, tt)
Sorted-insert task (t ∷ tasks) h = elim (Bool-cases (leb task.next_run t.next_run)) [
  | inl e ↦
      rw (e, insert)
        (
          (ground (arith, e), NotBefore-le task.next_run t.next_run tasks (ground (arith, e)) h.0),
          h,
        )
  | inr e ↦
      rw (e, insert)
        (
          NotBefore-insert t.next_run task tasks (ground (arith, e)) h.0,
          Sorted-insert task tasks h.1,
        )
]

Sorted-sort : (tasks : List ScheduledTask) → Sorted (sort tasks)
unfolding sort
Sorted-sort [] = tt
Sorted-sort (t ∷ tasks) = Sorted-insert t (sort tasks) (Sorted-sort tasks)

-- A change of the tasks that keeps their times keeps the order.
cancel_task-next_run : (id : ℕ) (t : ScheduledTask) → (cancel_task id t).next_run ≡ t.next_run
unfolding cancel_task
cancel_task-next_run id t = elim (Bool-cases (t.id == id)) [
  | inl e ↦ rw (e, cancel_task) refl
  | inr e ↦ rw (e, cancel_task) refl
]

NotBefore-cancel :
    (time id : ℕ) (tasks : List ScheduledTask)
    → NotBefore time tasks
    → NotBefore time (map (cancel_task id) tasks)
NotBefore-cancel time id [] h = tt
NotBefore-cancel time id (t ∷ tasks) h =
    (omega (arith, h.0, cancel_task-next_run id t), NotBefore-cancel time id tasks h.1)

Sorted-cancel :
    (id : ℕ) (tasks : List ScheduledTask) → Sorted tasks → Sorted (map (cancel_task id) tasks)
Sorted-cancel id [] h = tt
Sorted-cancel id (t ∷ tasks) h = (
  subst (λ x. NotBefore x (map (cancel_task id) tasks)) (sym (cancel_task-next_run id t))
      (NotBefore-cancel t.next_run id tasks h.0),
  Sorted-cancel id tasks h.1,
)

abbrev IsSorted : MiniScheduler → Type 0
IsSorted s = Sorted s.tasks

begin_round-Sorted :
    (now : ℕ) (tasks : List ScheduledTask) (s : MiniScheduler)
    → s.tasks ≡ tasks
    → IsSorted s
    → IsSorted (begin_round now tasks s)
unfolding begin_round
begin_round-Sorted now [] s e h = h
begin_round-Sorted now (task ∷ rest) s e h =
    let h' = subst Sorted e h in
    elim (Bool-cases task.cancelled) [
      | inl c ↦ rw c h'.1
      | inr c ↦
          rw c (elim (Bool-cases (ltb now task.next_run)) [ inl l ↦ rw l h | inr l ↦ rw l h'.1 ])
    ]

end_round-Sorted :
    (task : ScheduledTask) (now : ℕ) (s : MiniScheduler)
    → IsSorted s
    → IsSorted (end_round task now s)
unfolding end_round append
end_round-Sorted task now s h = elim (Option-cases task.interval) [
  | inl e ↦ rw e h
  | inr (interval, e) ↦ rw e (elim (Bool-cases task.cancelled) [
    | inl c ↦ rw c h
    | inr c ↦ rw c (
        Sorted-sort (
          s.tasks
          ++ record {
            id = task.id;
            next_run = now + interval;
            interval = some interval;
            cancelled = false;
          }
            ∷ []))
  ])
]

begins-Sorted :
    (now : ℕ) (running : Option (ScheduledTask × ℕ)) (s t : MiniScheduler)
    → s.running ≡ running
    → step (begins now) s ≡ some t
    → IsSorted s
    → IsSorted t
unfolding step
begins-Sorted now none s t r e h =
    let e' : (if s.stopped then none else some (begin_round now s.tasks s)) ≡ some t =
      sym (rw r refl) ∙ e in
    elim (Bool-cases s.stopped) [
      | inl c ↦ let bad : none ≡ some t = sym (rw c refl) ∙ e' in cc
      | inr c ↦
          let same : some (begin_round now s.tasks s) ≡ some t = sym (rw c refl) ∙ e' in
          subst IsSorted (some-injective _ _ same) (begin_round-Sorted now s.tasks s refl h)
    ]
begins-Sorted now (some w) s t r e h = let bad : none ≡ some t = sym (rw r refl) ∙ e in cc

ends-Sorted :
    (running : Option (ScheduledTask × ℕ)) (s t : MiniScheduler)
    → s.running ≡ running
    → step ends s ≡ some t
    → IsSorted s
    → IsSorted t
unfolding step
ends-Sorted none s t r e h = let bad : none ≡ some t = sym (rw r refl) ∙ e in cc
ends-Sorted (some (task, now)) s t r e h =
    let same : some (end_round task now s) ≡ some t = sym (rw r refl) ∙ e in
    subst IsSorted (some-injective _ _ same) (end_round-Sorted task now s h)

step-Sorted : (a : Action) (s t : MiniScheduler) → step a s ≡ some t → IsSorted s → IsSorted t
unfolding step schedule_once schedule_periodic append cancel stop
step-Sorted (schedules_once now delay id) s t e h = subst IsSorted (some-injective _ _ e) (
    Sorted-sort (
      s.tasks
      ++ record { id = id; next_run = now + delay; interval = none; cancelled = false } ∷ []))
step-Sorted (schedules_periodic now interval id) s t e h = subst IsSorted (some-injective _ _ e) (
    Sorted-sort (
      s.tasks
      ++ record { id = id; next_run = now + interval; interval = some interval; cancelled = false }
        ∷ []))
step-Sorted (cancels id) s t e h =
    subst IsSorted (some-injective _ _ e) (Sorted-cancel id s.tasks h)
step-Sorted (begins now) s t e h = begins-Sorted now s.running s t refl e h
step-Sorted ends s t e h = ends-Sorted s.running s t refl e h
step-Sorted stops s t e h = subst IsSorted (some-injective _ _ e) h

run-Sorted :
    (actions : List Action) (s t : MiniScheduler) → run actions s ≡ some t → IsSorted s → IsSorted t
unfolding run
run-Sorted [] s t e h = subst IsSorted (some-injective _ _ e) h
run-Sorted (a ∷ actions) s t e h = elim (Option-cases (step a s)) [
  | inl k ↦ let bad : none ≡ some t = sym (rw (k, run) refl) ∙ e in cc
  | inr (u, k) ↦ run-Sorted actions u t (sym (rw (k, run) refl) ∙ e) (step-Sorted a s u k h)
]

-- The task is due, is not cancelled, and no other is due before it.
abbrev pub IsNext : ℕ → ScheduledTask → List ScheduledTask → Type 0
IsNext now task rest =
    (task.next_run ≤ now) × (task.cancelled ≡ false) × NotBefore task.next_run rest

-- The three ends of a round, where its two tests come out in some way.
begins-IsNext :
    (cancelled early : Bool) (now : ℕ) (first : ScheduledTask) (rest : List ScheduledTask)
    (s : MiniScheduler) (started : ScheduledTask × ℕ)
    → first.cancelled ≡ cancelled
    → ltb now first.next_run ≡ early
    → NotBefore first.next_run rest
    → s.running ≡ none
    → (let t =
          if cancelled
          then record s { tasks = rest }
          else if early
          then s
          else record s { tasks = rest; running = some (first, now) } in
        t.running ≡ some started → IsNext started.1 started.0 t.tasks)
begins-IsNext true early now first rest s started c l h r w =
    let bad : none ≡ some started = sym r ∙ w in cc
begins-IsNext false true now first rest s started c l h r w =
    let bad : none ≡ some started = sym r ∙ w in cc
begins-IsNext false false now first rest s started c l h r w =
    subst (λ p. IsNext p.1 p.0 rest) (some-injective _ _ w) (ground (arith, l), c, h)

begin_round-IsNext :
    (now : ℕ) (tasks : List ScheduledTask) (started : ScheduledTask × ℕ) (s : MiniScheduler)
    → s.tasks ≡ tasks
    → s.running ≡ none
    → IsSorted s
    → (begin_round now tasks s).running ≡ some started
    → IsNext started.1 started.0 (begin_round now tasks s).tasks
unfolding begin_round
begin_round-IsNext now [] started s e r h w = let bad : none ≡ some started = sym r ∙ w in cc
begin_round-IsNext now (first ∷ rest) started s e r h w =
    begins-IsNext first.cancelled (ltb now first.next_run) now first rest s started refl refl
      (subst Sorted e h).0 r w

-- In every run from a new scheduler a round that starts a task starts one that is due and not cancelled, while no task that
-- is left is due before it.
pub begin_round-run :
    (actions : List Action) (s : MiniScheduler) (now : ℕ) (task : ScheduledTask)
    → run actions init ≡ some s
    → s.running ≡ none
    → (begin_round now s.tasks s).running ≡ some (task, now)
    → IsNext now task (begin_round now s.tasks s).tasks
unfolding init
begin_round-run actions s now task e r w =
    begin_round-IsNext now s.tasks (task, now) s refl r (run-Sorted actions init s e tt) w
