-- ===== src/MiniFramework/MiniTaskQueue/Counts.antt =====
-- The counts that a run of mini_task_queue.py keeps, and lemmas on sums over lists.
use mathlib.Core.Option.{some-injective}
use mathlib.Core.Path.{subst}
use assets_system.Prelude.{
  ℕ, zero, suc, ◌+◌, ◌-◌, ◌*◌, ◌≤◌, ◌≡◌, ap, false, none, some, List, [], ◌∷◌, ◌++◌, if◌then◌else◌,
  length, All, arith,
}
use assets_system.MiniFramework.MiniTaskQueue.{
  Task, Worker, idle, busy, ended, MiniTaskQueue, nth, update, is_sentinel, Action, submits, gets,
  ends, sets_stopped, puts_sentinels,
}

module _ {A : Type 0} where
  abbrev pub sum_by : (A → ℕ) → List A → ℕ
  sum_by f [] = 0
  sum_by f (x ∷ xs) = f x + sum_by f xs

  pub sum_by-append :
      (f : A → ℕ) (xs : List A) (y : A) → sum_by f (xs ++ y ∷ []) ≡ sum_by f xs + f y
  sum_by-append f [] y = omega arith
  sum_by-append f (x ∷ xs) y = omega (arith, sum_by-append f xs y)

  pub sum_by-update :
      (f : A → ℕ) (i : ℕ) (x y : A) (xs : List A)
      → nth xs i ≡ some x
      → sum_by f (update i y xs) + f x ≡ sum_by f xs + f y
  sum_by-update f i x y [] h = cc
  sum_by-update f zero x y (z ∷ xs) h = omega (arith, ap f (some-injective _ _ h))
  sum_by-update f (suc i) x y (z ∷ xs) h = omega (arith, sum_by-update f i x y xs h)

  pub All-nth : (P : A → Type 0) (i : ℕ) (x : A) (xs : List A) → nth xs i ≡ some x → All P xs → P x
  All-nth P i x [] h a = cc
  All-nth P zero x (z ∷ xs) h a = subst P (some-injective _ _ h) a.0
  All-nth P (suc i) x (z ∷ xs) h a = All-nth P i x xs h a.1

  pub All-update :
      (P : A → Type 0) (i : ℕ) (y : A) (xs : List A) → P y → All P xs → All P (update i y xs)
  All-update P i y [] p a = tt
  All-update P zero y (z ∷ xs) p a = (p, a.1)
  All-update P (suc i) y (z ∷ xs) p a = (a.0, All-update P i y xs p a.1)

module _ {P : Type 0} where
  -- A task may be handled again.
  abbrev pub Fresh : ℕ → Task P → Type 0
  Fresh max_retries task = task.attempts ≤ max_retries

  abbrev pub FreshWorker : ℕ → Worker P → Type 0
  FreshWorker max_retries (busy task) = Fresh max_retries task × (is_sentinel task ≡ false)
  FreshWorker max_retries idle = Unit
  FreshWorker max_retries ended = Unit

  abbrev pub is_busy : Worker P → ℕ
  is_busy (busy task) = 1
  is_busy idle = 0
  is_busy ended = 0

  abbrev pub Exhausted : ℕ → Task P → Type 0
  Exhausted max_retries task = task.attempts ≡ max_retries + 1

  abbrev pub IsValid : MiniTaskQueue P → Type 0
  IsValid q =
      All (Fresh q.max_retries) q.queue
      × All (FreshWorker q.max_retries) q.workers
      × All (Exhausted q.max_retries) q.dead_letter
      × (q.unfinished ≡ length q.queue + sum_by is_busy q.workers)

  -- The calls of the handler that a task can still cause.
  abbrev pub calls_left : ℕ → Task P → ℕ
  calls_left max_retries task = if is_sentinel task then 0 else max_retries + 1 - task.attempts

  abbrev pub worker_left : ℕ → Worker P → ℕ
  worker_left max_retries (busy task) = max_retries + 1 - task.attempts
  worker_left max_retries idle = 0
  worker_left max_retries ended = 0

  abbrev pub left : MiniTaskQueue P → ℕ
  left q = sum_by (calls_left q.max_retries) q.queue + sum_by (worker_left q.max_retries) q.workers

  -- 1 for a handler that ends, and 1 for a call of `submit` with a payload
  abbrev pub is_end : Action P → ℕ
  is_end (ends i raised) = 1
  is_end (submits id payload) = 0
  is_end (gets i) = 0
  is_end sets_stopped = 0
  is_end (puts_sentinels wait) = 0

  abbrev pub is_submit : Action P → ℕ
  is_submit (submits id (some payload)) = 1
  is_submit (submits id none) = 0
  is_submit (ends i raised) = 0
  is_submit (gets i) = 0
  is_submit sets_stopped = 0
  is_submit (puts_sentinels wait) = 0

  -- The calls of the handler that an action allows.
  abbrev pub allowed : ℕ → Action P → ℕ
  allowed max_retries (submits id (some payload)) = max_retries + 1
  allowed max_retries (submits id none) = 0
  allowed max_retries (ends i raised) = 0
  allowed max_retries (gets i) = 0
  allowed max_retries sets_stopped = 0
  allowed max_retries (puts_sentinels wait) = 0

  pub allowed-is_submit :
      (max_retries : ℕ) (a : Action P) → allowed max_retries a ≡ (max_retries + 1) * is_submit a
  allowed-is_submit max_retries (submits id (some payload)) = omega arith
  allowed-is_submit max_retries (submits id none) = omega arith
  allowed-is_submit max_retries (ends i raised) = omega arith
  allowed-is_submit max_retries (gets i) = omega arith
  allowed-is_submit max_retries sets_stopped = omega arith
  allowed-is_submit max_retries (puts_sentinels wait) = omega arith

  -- What a step from `q` to `t` keeps, where it has `calls` ends of a handler and adds `more`.
  abbrev pub Keeps : ℕ → ℕ → MiniTaskQueue P → MiniTaskQueue P → Type 0
  Keeps calls more q t =
      IsValid t × (t.max_retries ≡ q.max_retries) × (calls + left t ≤ left q + more)
