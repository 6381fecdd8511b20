-- ===== src/MiniFramework/MiniTaskQueue.antt =====
-- mini_task_queue.py: a pool of threads over a queue, with retries and dead letters. A run is a list
-- of actions, one for each step of a thread. The id of a task is an argument of `submit`, and whether
-- the handler raises one of `finish`. `unfinished` is the count of `queue.Queue` that `join` waits for.
use assets_system.Prelude.{
  ℕ, zero, suc, ◌+◌, ◌-◌, Bool, true, false, Option, none, some, List, [], ◌∷◌, ◌++◌, leb,
  if◌then◌else◌, ◌==◌,
}
pub mod Counts
pub mod Steps
pub mod Retries
pub mod Hangs
mod Tests

pub record Task (P : Type 0) : Type 0 where
  pub id : ℕ
  pub payload : Option P
  pub attempts : ℕ

-- A thread waits for a task, handles one, or has ended.
pub data Worker (P : Type 0) : Type 0 where
  idle : Worker P
  busy : Task P → Worker P
  ended : Worker P

pub record MiniTaskQueue (P : Type 0) : Type 0 where
  pub max_retries : ℕ
  pub queue : List (Task P)
  pub unfinished : ℕ
  pub workers : List (Worker P)
  pub stopped : Bool
  pub dead_letter : List (Task P)

abbrev pub nth : {A : Type 0} → List A → ℕ → Option A
nth [] i = none
nth (x ∷ xs) zero = some x
nth (x ∷ xs) (suc i) = nth xs i

abbrev pub update : {A : Type 0} → ℕ → A → List A → List A
update i y [] = []
update zero y (x ∷ xs) = y ∷ xs
update (suc i) y (x ∷ xs) = x ∷ update i y xs

abbrev pub replicate : {A : Type 0} → ℕ → A → List A
replicate zero x = []
replicate (suc n) x = x ∷ replicate n x

module _ {P : Type 0} where
  unfoldable pub init : ℕ → ℕ → MiniTaskQueue P
  init workers max_retries = record {
    max_retries = max_retries;
    queue = [];
    unfinished = 0;
    workers = replicate workers idle;
    stopped = false;
    dead_letter = [];
  }

  -- `queue.put`
  unfoldable pub put : Task P → MiniTaskQueue P → MiniTaskQueue P
  put task q = record q { queue = q.queue ++ task ∷ []; unfinished = q.unfinished + 1 }

  unfoldable pub submit : ℕ → Option P → MiniTaskQueue P → MiniTaskQueue P
  unfolding put
  submit id payload q = put (record { id = id; payload = payload; attempts = 0 }) q

  -- `task.payload is None and task.attempts == 0`
  unfoldable pub is_sentinel : Task P → Bool
  is_sentinel task = elim task.payload [ none ↦ task.attempts == 0 | some payload ↦ false ]

  -- an idle thread has got a task
  unfoldable pub begin : ℕ → List (Task P) → MiniTaskQueue P → Option (MiniTaskQueue P)
  unfolding is_sentinel
  begin i [] q = none
  begin i (task ∷ rest) q = some (
      if is_sentinel task
      then record q {
        queue = rest;
        unfinished = q.unfinished - 1;
        workers = update i ended q.workers;
      }
      else record q { queue = rest; workers = update i (busy task) q.workers })

  -- the handler raised: the task is put back or is a dead letter
  unfoldable pub retry : Task P → MiniTaskQueue P → MiniTaskQueue P
  unfolding put
  retry task q =
      if leb task.attempts q.max_retries
      then put task q
      else record q { dead_letter = q.dead_letter ++ task ∷ [] }

  -- `task_done`, and the thread goes on with its loop
  unfoldable pub task_done : ℕ → MiniTaskQueue P → MiniTaskQueue P
  task_done i q = record q { unfinished = q.unfinished - 1; workers = update i idle q.workers }

  -- the handler of a thread has ended
  unfoldable pub finish : ℕ → Bool → Task P → MiniTaskQueue P → MiniTaskQueue P
  unfolding retry task_done
  finish i raised task q =
      task_done i (if raised then retry (record task { attempts = task.attempts + 1 }) q else q)

  -- a sentinel for each thread
  unfoldable pub put_sentinels : List (Worker P) → MiniTaskQueue P → MiniTaskQueue P
  unfolding submit
  put_sentinels [] q = q
  put_sentinels (w ∷ workers) q = put_sentinels workers (submit 0 none q)

-- The steps of the threads: a call of `submit`, a thread that gets a task, a handler that ends, and
-- the two parts of `stop`, of which the second follows the join where it waits.
pub data Action (P : Type 0) : Type 0 where
  submits : ℕ → Option P → Action P
  gets : ℕ → Action P
  ends : ℕ → Bool → Action P
  sets_stopped : Action P
  puts_sentinels : (wait : Bool) → Action P

module _ {P : Type 0} where
  unfoldable pub worker_gets : ℕ → Option (Worker P) → MiniTaskQueue P → Option (MiniTaskQueue P)
  unfolding begin
  worker_gets i (some idle) q = begin i q.queue q
  worker_gets i (some (busy task)) q = none
  worker_gets i (some ended) q = none
  worker_gets i none q = none

  unfoldable pub worker_ends :
      ℕ → Bool → Option (Worker P) → MiniTaskQueue P → Option (MiniTaskQueue P)
  unfolding finish
  worker_ends i raised (some (busy task)) q = some (finish i raised task q)
  worker_ends i raised (some idle) q = none
  worker_ends i raised (some ended) q = none
  worker_ends i raised none q = none

  -- `none` where the action waits
  unfoldable pub step : Action P → MiniTaskQueue P → Option (MiniTaskQueue P)
  unfolding submit put_sentinels worker_gets worker_ends
  step (submits id payload) q = some (submit id payload q)
  step (gets i) q = worker_gets i (nth q.workers i) q
  step (ends i raised) q = worker_ends i raised (nth q.workers i) q
  step sets_stopped q = some (record q { stopped = true })
  step (puts_sentinels false) q = some (put_sentinels q.workers q)
  step (puts_sentinels true) q =
      if q.unfinished == 0 then some (put_sentinels q.workers q) else none

  unfoldable pub run : List (Action P) → MiniTaskQueue P → Option (MiniTaskQueue P)
  unfolding step
  run [] q = some q
  run (a ∷ actions) q = elim (step a q) [ none ↦ none | some t ↦ run actions t ]
