-- ===== src/MiniFramework/MiniTaskQueue/Steps.antt =====
-- What each step of mini_task_queue.py does to the counts.
use mathlib.Core.Option.{some-injective}
use mathlib.Core.Path.{subst}
use assets_system.Prelude.{
  ℕ, ◌+◌, ◌-◌, ◌≤◌, ◌≡◌, refl, ap, ◌∙◌, inl, inr, Bool, true, false, Option, none, some, List, [],
  ◌∷◌, ◌++◌, leb, length, length-append, All, All-append, arith, Bool-cases, Option-cases,
}
use assets_system.MiniFramework.MiniTaskQueue.{
  Task, Worker, idle, busy, ended, MiniTaskQueue, nth, put, submit, is_sentinel, begin, retry,
  task_done, finish, put_sentinels, submits,
}
use assets_system.MiniFramework.MiniTaskQueue.Counts.{
  sum_by, sum_by-append, sum_by-update, All-nth, All-update, Fresh, FreshWorker, is_busy, Exhausted,
  IsValid, calls_left, worker_left, allowed, Keeps,
}

module _ {P : Type 0} where
  pub submit-Keeps :
      (id : ℕ) (payload : Option P) (q : MiniTaskQueue P)
      → IsValid q
      → Keeps 0 (allowed q.max_retries (submits id payload)) q (submit id payload q)
  unfolding submit put is_sentinel
  submit-Keeps id none q (fresh, workers, dead, count) =
      let task : Task P = record { id = id; payload = none; attempts = 0 } in
      (
        (
          All-append (Fresh q.max_retries) q.queue task fresh (omega arith),
          workers,
          dead,
          omega (arith, count, length-append q.queue (task ∷ [])),
        ),
        refl,
        omega (arith, sum_by-append (calls_left q.max_retries) q.queue task),
      )
  submit-Keeps id (some payload) q (fresh, workers, dead, count) =
      let task : Task P = record { id = id; payload = some payload; attempts = 0 } in
      (
        (
          All-append (Fresh q.max_retries) q.queue task fresh (omega arith),
          workers,
          dead,
          omega (arith, count, length-append q.queue (task ∷ [])),
        ),
        refl,
        omega (arith, sum_by-append (calls_left q.max_retries) q.queue task),
      )

  pub put_sentinels-Keeps :
      (ws : List (Worker P)) (q : MiniTaskQueue P) → IsValid q → Keeps 0 0 q (put_sentinels ws q)
  unfolding put_sentinels
  put_sentinels-Keeps [] q h = (h, refl, omega arith)
  put_sentinels-Keeps (w ∷ ws) q h =
      let (valid, same, calls) = submit-Keeps 0 none q h in
      let (valid', same', calls') = put_sentinels-Keeps ws (submit 0 none q) valid in
      (valid', same' ∙ same, omega (arith, calls, calls'))

  pub begin-Keeps :
      (i : ℕ) (queue : List (Task P)) (q t : MiniTaskQueue P)
      → q.queue ≡ queue
      → nth q.workers i ≡ some idle
      → begin i queue q ≡ some t
      → IsValid q
      → Keeps 0 0 q t
  unfolding begin
  begin-Keeps i [] q t e w h valid = cc
  begin-Keeps i (task ∷ rest) q t e w h (fresh, workers, dead, count) =
      let fresh' = subst (All (Fresh q.max_retries)) e fresh in
      let weight = ap (sum_by (calls_left q.max_retries)) e in
      let size = ap length e in
      subst (Keeps 0 0 q) (some-injective _ _ h) (elim (Bool-cases (is_sentinel task)) [
        | inl s ↦ rw s (
          (
            fresh'.1,
            All-update (FreshWorker q.max_retries) i ended q.workers tt workers,
            dead,
            omega (arith, count, size, sum_by-update is_busy i idle ended q.workers w),
          ),
          refl,
          omega (arith, weight, sum_by-update (worker_left q.max_retries) i idle ended q.workers w),
        )
        | inr s ↦ rw s (
          (
            fresh'.1,
            All-update (FreshWorker q.max_retries) i (busy task) q.workers (fresh'.0, s) workers,
            dead,
            omega (arith, count, size, sum_by-update is_busy i idle (busy task) q.workers w),
          ),
          refl,
          ground (
            arith,
            s,
            weight,
            sum_by-update (worker_left q.max_retries) i idle (busy task) q.workers w,
          ),
        )
      ])

  retried_left :
      (max_retries : ℕ) (task : Task P)
      → is_sentinel task ≡ false
      → calls_left max_retries (record task { attempts = task.attempts + 1 })
        ≡ max_retries - task.attempts
  unfolding is_sentinel
  retried_left max_retries task h = elim (Option-cases task.payload) [
    | inl e ↦ rw e (ground arith)
    | inr (p, e) ↦ rw e (omega arith)
  ]

  -- A thread whose handler has ended marks its task as done in a state with the queue `queue`.
  task_done-Keeps :
      (i : ℕ) (task : Task P) (queue : List (Task P)) (unfinished : ℕ) (dead_letter : List (Task P))
      (q : MiniTaskQueue P)
      → nth q.workers i ≡ some (busy task)
      → IsValid q
      → All (Fresh q.max_retries) queue
      → All (Exhausted q.max_retries) dead_letter
      → unfinished ≡ length queue + sum_by is_busy q.workers
      → sum_by (calls_left q.max_retries) queue
        ≤ sum_by (calls_left q.max_retries) q.queue + (q.max_retries - task.attempts)
      → Keeps 1 0 q (
          task_done i
            (record q { queue = queue; unfinished = unfinished; dead_letter = dead_letter }))
  unfolding task_done
  task_done-Keeps i task queue unfinished dead_letter q w (fresh, workers, dead, count) fresh' dead'
        count' fewer =
      let few = All-nth (FreshWorker q.max_retries) i (busy task) q.workers w workers in
      (
        (
          fresh',
          All-update (FreshWorker q.max_retries) i idle q.workers tt workers,
          dead',
          omega (arith, count', sum_by-update is_busy i (busy task) idle q.workers w),
        ),
        refl,
        omega (
          arith,
          few.0,
          fewer,
          sum_by-update (worker_left q.max_retries) i (busy task) idle q.workers w,
        ),
      )

  pub finish-Keeps :
      (i : ℕ) (raised : Bool) (task : Task P) (q : MiniTaskQueue P)
      → nth q.workers i ≡ some (busy task)
      → IsValid q
      → Keeps 1 0 q (finish i raised task q)
  unfolding finish retry put
  finish-Keeps i false task q w h =
      task_done-Keeps i task q.queue q.unfinished q.dead_letter q w h h.0 h.2 h.3 (omega arith)
  finish-Keeps i true task q w h =
      let again : Task P = record task { attempts = task.attempts + 1 } in
      let (few, s) = All-nth (FreshWorker q.max_retries) i (busy task) q.workers w h.1 in
      elim (Bool-cases (leb (task.attempts + 1) q.max_retries)) [
        | inl l ↦ rw l (
            task_done-Keeps i task (q.queue ++ again ∷ []) (q.unfinished + 1) q.dead_letter q w h
              (All-append (Fresh q.max_retries) q.queue again h.0 (ground (arith, l))) h.2
              (omega (arith, h.3, length-append q.queue (again ∷ [])))
              (omega (
                arith,
                retried_left q.max_retries task s,
                sum_by-append (calls_left q.max_retries) q.queue again,
              )))
        | inr l ↦ rw l (
            task_done-Keeps i task q.queue q.unfinished (q.dead_letter ++ again ∷ []) q w h h.0
              (All-append (Exhausted q.max_retries) q.dead_letter again h.2
                (ground (arith, l, few)))
              h.3 (omega arith))
      ]
