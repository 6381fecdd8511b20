-- ===== src/MiniFramework/MiniTaskQueue/Retries.antt =====
-- The attempts of tasks and the count of unfinished ones (mini_task_queue.py).
use mathlib.Core.Option.{some-injective}
use mathlib.Core.Path.{subst}
use assets_system.Prelude.{
  ℕ, zero, suc, ◌+◌, ◌*◌, ◌≤◌, ◌≡◌, refl, sym, ap, ◌∙◌, inl, inr, Bool, true, false, Option, none,
  some, List, [], ◌∷◌, if◌then◌else◌, ◌==◌, length, All, arith, Option-cases,
}
use assets_system.MiniFramework.MiniTaskQueue.{
  Worker, idle, busy, ended, MiniTaskQueue, nth, replicate, init, put_sentinels, Action, submits,
  gets, ends, sets_stopped, puts_sentinels, worker_gets, worker_ends, step, run,
}
use assets_system.MiniFramework.MiniTaskQueue.Counts.{
  sum_by, FreshWorker, is_busy, Exhausted, IsValid, worker_left, is_end, is_submit, allowed,
  allowed-is_submit, Keeps,
}
use assets_system.MiniFramework.MiniTaskQueue.Steps.{
  submit-Keeps, put_sentinels-Keeps, begin-Keeps, finish-Keeps,
}

module _ {P : Type 0} where
  worker_gets-Keeps :
      (i : ℕ) (w : Option (Worker P)) (q t : MiniTaskQueue P)
      → nth q.workers i ≡ w
      → worker_gets i w q ≡ some t
      → IsValid q
      → Keeps 0 0 q t
  unfolding worker_gets
  worker_gets-Keeps i none q t e h valid = cc
  worker_gets-Keeps i (some idle) q t e h valid = begin-Keeps i q.queue q t refl e h valid
  worker_gets-Keeps i (some (busy task)) q t e h valid = cc
  worker_gets-Keeps i (some ended) q t e h valid = cc

  worker_ends-Keeps :
      (i : ℕ) (raised : Bool) (w : Option (Worker P)) (q t : MiniTaskQueue P)
      → nth q.workers i ≡ w
      → worker_ends i raised w q ≡ some t
      → IsValid q
      → Keeps 1 0 q t
  unfolding worker_ends
  worker_ends-Keeps i raised none q t e h valid = cc
  worker_ends-Keeps i raised (some idle) q t e h valid = cc
  worker_ends-Keeps i raised (some (busy task)) q t e h valid =
      subst (Keeps 1 0 q) (some-injective _ _ h) (finish-Keeps i raised task q e valid)
  worker_ends-Keeps i raised (some ended) q t e h valid = cc

  join-Keeps :
      (joined : Bool) (q t : MiniTaskQueue P)
      → (if joined then some (put_sentinels q.workers q) else none) ≡ some t
      → IsValid q
      → Keeps 0 0 q t
  join-Keeps true q t h valid =
      subst (Keeps 0 0 q) (some-injective _ _ h) (put_sentinels-Keeps q.workers q valid)
  join-Keeps false q t h valid = cc

  step-Keeps :
      (a : Action P) (q t : MiniTaskQueue P)
      → step a q ≡ some t
      → IsValid q
      → Keeps (is_end a) (allowed q.max_retries a) q t
  unfolding step
  step-Keeps (submits id payload) q t h valid =
      subst (Keeps 0 (allowed q.max_retries (submits id payload)) q) (some-injective _ _ h)
        (submit-Keeps id payload q valid)
  step-Keeps (gets i) q t h valid = worker_gets-Keeps i (nth q.workers i) q t refl h valid
  step-Keeps (ends i raised) q t h valid =
      worker_ends-Keeps i raised (nth q.workers i) q t refl h valid
  step-Keeps sets_stopped q t h valid =
      subst (Keeps 0 0 q) (some-injective _ _ h) (valid, refl, omega arith)
  step-Keeps (puts_sentinels false) q t h valid = join-Keeps true q t h valid
  step-Keeps (puts_sentinels true) q t h valid = join-Keeps (q.unfinished == 0) q t h valid

  run-Keeps :
      (actions : List (Action P)) (q t : MiniTaskQueue P)
      → run actions q ≡ some t
      → IsValid q
      → Keeps (sum_by is_end actions) (sum_by (allowed q.max_retries) actions) q t
  unfolding run
  run-Keeps [] q t h valid = subst (Keeps 0 0 q) (some-injective _ _ h) (valid, refl, omega arith)
  run-Keeps (a ∷ actions) q t h valid = elim (Option-cases (step a q)) [
    | inl e ↦ let bad : none ≡ some t = sym (rw (e, run) refl) ∙ h in cc
    | inr (u, e) ↦
        let (valid', same, calls) = step-Keeps a q u e valid in
        let (valid'', same', calls') = run-Keeps actions u t (sym (rw (e, run) refl) ∙ h) valid' in
        (
          valid'',
          same' ∙ same,
          omega (arith, calls, calls', ap (λ m. sum_by (allowed m) actions) same),
        )
  ]

  sum_by-replicate : (f : Worker P → ℕ) (n : ℕ) → f idle ≡ 0 → sum_by f (replicate n idle) ≡ 0
  sum_by-replicate f zero h = refl
  sum_by-replicate f (suc n) h = omega (arith, h, sum_by-replicate f n h)

  All-replicate : (Q : Worker P → Type 0) (n : ℕ) → Q idle → All Q (replicate n idle)
  All-replicate Q zero h = tt
  All-replicate Q (suc n) h = (h, All-replicate Q n h)

  run-init :
      (workers max_retries : ℕ) (actions : List (Action P)) (q : MiniTaskQueue P)
      → run actions (init workers max_retries) ≡ some q
      → Keeps
          (sum_by is_end actions)
          (sum_by (allowed max_retries) actions)
          (init workers max_retries)
          q
  unfolding init
  run-init workers max_retries actions q h = run-Keeps actions (init workers max_retries) q h (
    tt,
    All-replicate (FreshWorker max_retries) workers tt,
    tt,
    omega (arith, sum_by-replicate is_busy workers refl),
  )

  -- In every run the count of unfinished tasks is that of the tasks in the queue and in the hands of a
  -- thread, so a join ends when there are none; and each dead letter was handled `max_retries + 1`
  -- times.
  pub run-unfinished :
      (workers max_retries : ℕ) (actions : List (Action P)) (q : MiniTaskQueue P)
      → run actions (init workers max_retries) ≡ some q
      → (q.unfinished ≡ length q.queue + sum_by is_busy q.workers)
        × All (Exhausted max_retries) q.dead_letter
  unfolding init
  run-unfinished workers max_retries actions q h =
      let (valid, same, calls) = run-init workers max_retries actions q h in
      (valid.3, subst (λ m. All (Exhausted m) q.dead_letter) same valid.2)

  sum_by-allowed :
      (max_retries : ℕ) (actions : List (Action P))
      → sum_by (allowed max_retries) actions ≡ (max_retries + 1) * sum_by is_submit actions
  sum_by-allowed max_retries [] = omega arith
  sum_by-allowed max_retries (a ∷ actions) =
      grind (arith, allowed-is_submit max_retries a, sum_by-allowed max_retries actions)

  -- In every run the handler is called to the end at most `max_retries + 1` times for each task that
  -- was submitted with a payload.
  run_calls :
      (workers max_retries : ℕ) (actions : List (Action P)) (q : MiniTaskQueue P)
      → run actions (init workers max_retries) ≡ some q
      → sum_by is_end actions ≤ (max_retries + 1) * sum_by is_submit actions
  unfolding init
  run_calls workers max_retries actions q h = omega (
    arith,
    (run-init workers max_retries actions q h).2,
    sum_by-allowed max_retries actions,
    sum_by-replicate (worker_left max_retries) workers refl,
  )
