-- ===== src/MiniFramework/MiniTaskQueue/Hangs.antt =====
-- Runs of mini_task_queue.py after all threads have ended.
use mathlib.Core.Option.{some-injective}
use mathlib.Core.Path.{subst}
use assets_system.Prelude.{
  ℕ, zero, suc, ◌≤◌, ◌<◌, ◌≡◌, refl, sym, ◌∙◌, inl, inr, Bool, true, false, Option, none, some,
  List, [], ◌∷◌, if◌then◌else◌, ◌==◌, All, arith, Option-cases,
}
use assets_system.MiniFramework.MiniTaskQueue.{
  Worker, idle, busy, ended, MiniTaskQueue, nth, put, submit, put_sentinels, Action, submits, gets,
  ends, sets_stopped, puts_sentinels, worker_gets, worker_ends, step, run,
}

module _ {P : Type 0} where
  abbrev pub AllEnded : MiniTaskQueue P → Type 0
  AllEnded q = All (λ w. w ≡ ended) q.workers

  nth-ended :
      (i : ℕ) (workers : List (Worker P))
      → All (λ w. w ≡ ended) workers
      → (w : Worker P) → nth workers i ≡ some w
      → w ≡ ended
  nth-ended i [] h w e = cc
  nth-ended zero (v ∷ workers) h w e = sym (some-injective _ _ e) ∙ h.0
  nth-ended (suc i) (v ∷ workers) h w e = nth-ended i workers h.1 w e

  -- the threads are unchanged and no task is taken off the count
  abbrev Stays : MiniTaskQueue P → MiniTaskQueue P → Type 0
  Stays q t = (t.workers ≡ q.workers) × (q.unfinished ≤ t.unfinished)

  put_sentinels-Stays : (ws : List (Worker P)) (q : MiniTaskQueue P) → Stays q (put_sentinels ws q)
  unfolding put_sentinels submit put
  put_sentinels-Stays [] q = (refl, omega arith)
  put_sentinels-Stays (w ∷ ws) q =
      let (same, more) = put_sentinels-Stays ws (submit 0 none q) in (same, omega (arith, more))

  worker_gets-Stays :
      (i : ℕ) (w : Option (Worker P)) (q t : MiniTaskQueue P)
      → nth q.workers i ≡ w
      → worker_gets i w q ≡ some t
      → AllEnded q
      → Stays q t
  unfolding worker_gets
  worker_gets-Stays i none q t e h all = cc
  worker_gets-Stays i (some idle) q t e h all = let bad = nth-ended i q.workers all idle e in cc
  worker_gets-Stays i (some (busy task)) q t e h all = cc
  worker_gets-Stays i (some ended) q t e h all = cc

  worker_ends-Stays :
      (i : ℕ) (raised : Bool) (w : Option (Worker P)) (q t : MiniTaskQueue P)
      → nth q.workers i ≡ w
      → worker_ends i raised w q ≡ some t
      → AllEnded q
      → Stays q t
  unfolding worker_ends
  worker_ends-Stays i raised none q t e h all = cc
  worker_ends-Stays i raised (some idle) q t e h all = cc
  worker_ends-Stays i raised (some (busy task)) q t e h all =
      let bad = nth-ended i q.workers all (busy task) e in cc
  worker_ends-Stays i raised (some ended) q t e h all = cc

  join-Stays :
      (joined : Bool) (q t : MiniTaskQueue P)
      → (if joined then some (put_sentinels q.workers q) else none) ≡ some t
      → Stays q t
  join-Stays true q t h = subst (Stays q) (some-injective _ _ h) (put_sentinels-Stays q.workers q)
  join-Stays false q t h = cc

  step-Stays : (a : Action P) (q t : MiniTaskQueue P) → step a q ≡ some t → AllEnded q → Stays q t
  unfolding step submit put
  step-Stays (submits id payload) q t h all =
      subst (Stays q) (some-injective _ _ h) (refl, omega arith)
  step-Stays (gets i) q t h all = worker_gets-Stays i (nth q.workers i) q t refl h all
  step-Stays (ends i raised) q t h all = worker_ends-Stays i raised (nth q.workers i) q t refl h all
  step-Stays sets_stopped q t h all = subst (Stays q) (some-injective _ _ h) (refl, omega arith)
  step-Stays (puts_sentinels false) q t h all = join-Stays true q t h
  step-Stays (puts_sentinels true) q t h all = join-Stays (q.unfinished == 0) q t h

  -- Once all threads have ended, the count of unfinished tasks never falls again: if it is not 0, a
  -- `stop` that waits never gets past its join.
  run_hangs :
      (actions : List (Action P)) (q t : MiniTaskQueue P)
      → AllEnded q
      → 0 < q.unfinished
      → run actions q ≡ some t
      → (0 < t.unfinished) × (step (puts_sentinels true) t ≡ none)
  unfolding run step
  run_hangs [] q t all some_left h =
      let same = some-injective _ _ h in
      subst (λ x. (0 < x.unfinished) × (step (puts_sentinels true) x ≡ none)) same
        (some_left, ground (arith, some_left))
  run_hangs (a ∷ actions) q t all some_left h = elim (Option-cases (step a q)) [
    | inl e ↦ let bad : none ≡ some t = sym (rw (e, run) refl) ∙ h in cc
    | inr (u, e) ↦
        let (same, more) = step-Stays a q u e all in
        run_hangs actions u t (subst (All (λ w. w ≡ ended)) (sym same) all)
          (omega (arith, some_left, more)) (sym (rw (e, run) refl) ∙ h)
  ]
