-- ===== src/Capacity/Conservation.antt =====
-- The counts of jobs and servers in the loop of capacity_simulator.py, `run_mm1_simulation`.
use assets_system.Prelude.Dict
use assets_system.Prelude.{
  ℕ, ◌+◌, ◌≡◌, refl, sym, ap, inl, inr, Option, some, List, [], ◌∷◌, ltb, length, length-append,
  ℕ_discrete, arith, Bool-cases, Option-cases,
}
use mathlib.Core.Path.{subst}
use assets_system.Prelude.Dict.{Dict}
use assets_system.Prelude.Keys
use assets_system.Capacity.Rounds.{round-some, loop_induction}
use assets_system.Capacity.{
  init, advance, serve, admit, schedule_arrival, arrive, complete, serve_id, release, depart,
  handle, round, loop, Event, EventType, arrival, departure, Config, Simulation, Job, new_job, Pops,
}
use assets_system.Capacity.Counts.{
  leaves, leaves_of, waits, IsKeyed-set, IsTracked, Conserves, Bounded, Balanced, Counts,
  IsTrackedBut, Owes, spare_job, admit-IsTracked, complete-IsTracked, serve_id-IsTracked,
}

module _ (expovariate : ℕ → ℕ → ℕ) (heappop : List Event → Option (Event × List Event))
    (config : Config) where
  admit-Balanced :
      (job : Job) (s : Simulation)
      → Owes 1 0 0 s
      → Balanced (admit expovariate heappop config job s)
  unfolding admit serve
  admit-Balanced job s h = ground (arith, h, length-append s.queue (job.id ∷ []))

  admit-Bounded :
      (job : Job) (s : Simulation)
      → Bounded config s
      → Bounded config (admit expovariate heappop config job s)
  unfolding admit serve
  admit-Bounded job s h = ground (arith, h, length-append s.queue (job.id ∷ []))

  -- The event of an arrival changes no count.
  schedule_arrival-Counts :
      (s : Simulation)
      → Counts config s
      → Counts config (schedule_arrival expovariate heappop config s)
  unfolding schedule_arrival
  schedule_arrival-Counts s h =
      elim (Bool-cases
        (ltb (s.current_time + expovariate config.lambda_rate s.draws) config.duration)) [
          | inl e ↦
              rw (e, schedule_arrival)
                ((λ id. omega (arith, h.0.0 id), h.0.1, h.0.2), (h.1.0, omega (arith, h.1)), h.2)
          | inr e ↦ rw (e, schedule_arrival) h
        ]

  arrive-Counts :
      (s : Simulation) → Counts config s → Counts config (arrive expovariate heappop config s)
  unfolding arrive
  arrive-Counts s (tracked, balanced, bounded) =
      let job_id = s.next_job_id + 1 in
      let job = new_job job_id s.current_time in
      let t = record s { next_job_id = job_id; jobs = Dict.set ℕ_discrete job_id job s.jobs } in
      let tracked_but : IsTrackedBut job_id t = (
        λ id.
            ground
              (arith, tracked.0 id, tracked.1 id, Keys.has-set ℕ_discrete job_id id job s.jobs),
        λ id l. ground (arith, tracked.1 id, Keys.has-set ℕ_discrete job_id id job s.jobs),
        IsKeyed-set job s.jobs tracked.2,
      ) in
      schedule_arrival-Counts (admit expovariate heappop config job t) (
        admit-IsTracked expovariate heappop config job t tracked_but,
        admit-Balanced job t (omega (arith, balanced)),
        admit-Bounded job t bounded,
      )

  complete-Owes :
      (job_id : ℕ) (s : Simulation)
      → IsTrackedBut job_id s
      → Owes 0 0 1 s
      → Owes 0 1 1 (complete expovariate heappop config job_id s)
  unfolding complete
  complete-Owes job_id s h o =
      let (job, e) = spare_job job_id s h in
      let done = record job { departure_time = s.current_time } in
      rw (e, complete) (omega (arith, o, length-append s.completed_jobs (done ∷ [])), o.1)

  complete-Bounded :
      (job_id : ℕ) (s : Simulation)
      → Bounded config s
      → Bounded config (complete expovariate heappop config job_id s)
  unfolding complete
  complete-Bounded job_id s h = elim (Option-cases (Dict.get ℕ_discrete job_id s.jobs)) [
    | inl e ↦ rw (e, complete) h
    | inr (job, e) ↦ rw (e, complete) h
  ]

  serve_id-Owes :
      (job_id : ℕ) (s : Simulation)
      → IsTrackedBut job_id s
      → Owes 1 1 1 s
      → Balanced (serve_id expovariate heappop config job_id s)
  unfolding serve_id serve
  serve_id-Owes job_id s h o =
      let (job, e) = spare_job job_id s h in rw (e, serve_id) (omega (arith, o), omega (arith, o))

  serve_id-Bounded :
      (job_id : ℕ) (s : Simulation)
      → Bounded config s
      → Bounded config (serve_id expovariate heappop config job_id s)
  unfolding serve_id serve
  serve_id-Bounded job_id s h = elim (Option-cases (Dict.get ℕ_discrete job_id s.jobs)) [
    | inl e ↦ rw (e, serve_id) h
    | inr (job, e) ↦ rw (e, serve_id) h
  ]

  release-Counts :
      (queue : List ℕ) (s : Simulation)
      → s.queue ≡ queue
      → IsTracked s
      → Owes 0 1 1 s
      → Bounded config s
      → Counts config (release expovariate heappop config queue s)
  unfolding release
  release-Counts [] s e tracked owes bounded = (
    tracked,
    (omega (arith, owes, bounded), omega (arith, owes)),
    (omega (arith, bounded), λ l. absurd (omega (arith, l, ap length e)), bounded.2),
  )
  release-Counts (job_id ∷ queue) s e tracked owes bounded =
      let t = record s { queue = queue } in
      let tracked_but : IsTrackedBut job_id t =
        (λ id. ground (arith, tracked.0 id, ap (waits id) e), tracked.1, tracked.2) in
      (
        serve_id-IsTracked expovariate heappop config job_id t tracked_but,
        serve_id-Owes job_id t tracked_but (omega (arith, owes, ap length e), owes.1),
        serve_id-Bounded job_id t (
          bounded.0,
          λ l. bounded.1 (omega (arith, l, ap length e)),
          λ l. omega (arith, bounded.2 l, ap length e),
        ),
      )

  depart-Counts :
      (job_id : ℕ) (s : Simulation)
      → IsTrackedBut job_id s
      → Owes 0 0 1 s
      → Bounded config s
      → Counts config (depart expovariate heappop config job_id s)
  unfolding depart
  depart-Counts job_id s tracked owes bounded =
      let done = complete expovariate heappop config job_id s in
      release-Counts done.queue done refl
        (complete-IsTracked expovariate heappop config job_id s tracked)
        (complete-Owes job_id s tracked owes) (complete-Bounded job_id s bounded)

  -- A round keeps the counts.
  pub handle-Counts :
      (type : EventType) (job_id : ℕ) (s : Simulation)
      → (type ≡ arrival → Counts config s)
      → (type ≡ departure → IsTrackedBut job_id s × Owes 0 0 1 s × Bounded config s)
      → Counts config (handle expovariate heappop config type job_id s)
  unfolding handle
  handle-Counts arrival job_id s f g = arrive-Counts s (f refl)
  handle-Counts departure job_id s f g =
      let (tracked, owes, bounded) = g refl in depart-Counts job_id s tracked owes bounded

  pub round-Counts :
      Pops heappop
      → (s t : Simulation) → round expovariate heappop config s ≡ some t
      → Counts config s
      → Counts config t
  unfolding advance
  round-Counts pops s t h (tracked, balanced, bounded) =
      let ((e, rest), popped, k) = round-some expovariate heappop config s t h in
      let sums = (pops.2 s.events e rest popped).0 in
      let now = advance expovariate heappop config e rest s in
      subst (Counts config) (sym k) (
        handle-Counts e.type e.job_id now
          (λ p. (
            (
              λ id. ground (arith, p, tracked.0 id, sums (λ x. leaves_of id x.type x.job_id)),
              tracked.1,
              tracked.2,
            ),
            (balanced.0, ground (arith, p, balanced, sums (λ x. leaves x.type))),
            bounded,
          ))
          (λ p. (
            (
              λ id. ground (arith, p, tracked.0 id, sums (λ x. leaves_of id x.type x.job_id)),
              tracked.1,
              tracked.2,
            ),
            (omega (arith, balanced), ground (arith, p, balanced, sums (λ x. leaves x.type))),
            bounded,
          )))

  pub init-Counts : Counts config (init expovariate heappop config)
  unfolding init Dict.get
  init-Counts = (
    (λ id. omega arith, λ id l. refl, λ id job e. ground (arith, e)),
    (refl, omega arith),
    (omega arith, λ l. absurd (omega (arith, l)), λ l. omega arith),
  )

  -- Where `heappop` takes an earliest event, at the end of a run each job that arrived is completed,
  -- dropped, waiting or served; no more servers are busy than there are; jobs wait only if all servers
  -- are busy, and no more than `max_queue_size` where it is not 0.
  pub loop-Conserves :
      Pops heappop
      → (fuel : ℕ) (s : Simulation)
      → loop expovariate heappop config fuel (init expovariate heappop config) ≡ some s
      → Conserves s × Bounded config s
  loop-Conserves pops fuel s h =
      let counts =
        loop_induction expovariate heappop config (Counts config) (round-Counts pops) fuel
          (init expovariate heappop config) s h init-Counts in
      (counts.1.0, counts.2)
