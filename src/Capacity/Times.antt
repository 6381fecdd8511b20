-- ===== src/Capacity/Times.antt =====
-- The times of the jobs in the loop of capacity_simulator.py, `run_mm1_simulation`.
use assets_system.Prelude.Dict
use assets_system.Prelude.{
  ℕ, ◌+◌, ◌≤◌, ◌<◌, ◌≡◌, refl, sym, ap, inl, inr, ◌||◌, Option, some, List, [], ◌∷◌, ltb,
  if◌then◌else◌, ◌==◌, length, All, All-append, ℕ_discrete, arith, Bool-cases, Option-cases,
}
use mathlib.Core.Path.{subst}
use assets_system.Prelude.Dict.{Dict}
use assets_system.Capacity.Rounds.{round-some, loop_induction}
use assets_system.Capacity.Counts.{departures_of, IsTracked, leaves_of, Counts}
use assets_system.Capacity.Conservation.{round-Counts, init-Counts}
use assets_system.Capacity.{
  init, advance, serve, admit, schedule_arrival, arrive, complete, serve_id, release, depart,
  handle, round, loop, Event, EventType, arrival, departure, Config, Simulation, Job, new_job, sum,
  Pops, wait_times, system_times, service_times,
}

-- A job starts after it arrives.
abbrev Starts : ℕ → Job → Type 0
Starts now job = (job.arrival_time ≤ job.start_time) × (job.start_time ≤ now)

-- A job starts after it arrives and departs after it starts.
abbrev pub InOrder : Job → Type 0
InOrder job = Starts job.departure_time job

-- The jobs have arrived, and those with a departure to come have started.
abbrev Arrived : Simulation → Type 0
Arrived s =
    (id : ℕ) (job : Job)
    → Dict.get ℕ_discrete id s.jobs ≡ some job
    → (job.arrival_time ≤ s.current_time)
      × (0 < departures_of id s.events → Starts s.current_time job)

abbrev Timely : Simulation → Type 0
Timely s = All (λ e. s.current_time ≤ e.time) s.events × Arrived s × All InOrder s.completed_jobs

abbrev pub total : List ℕ → ℕ
total [] = 0
total (x ∷ xs) = x + total xs

total_times :
    (jobs : List Job)
    → All InOrder jobs
    → total (system_times jobs) ≡ total (wait_times jobs) + total (service_times jobs)
unfolding system_times wait_times service_times
total_times [] h = refl
total_times (j ∷ jobs) h = omega (arith, h.0, total_times jobs h.1)

module _ (expovariate : ℕ → ℕ → ℕ) (heappop : List Event → Option (Event × List Event))
    (config : Config) where
  serve-Timely :
      (job : Job) (s : Simulation)
      → job.arrival_time ≤ s.current_time
      → Timely s
      → Timely (serve expovariate heappop config job s)
  unfolding serve
  serve-Timely job s l (future, arrived, done) = (
    (omega arith, future),
    λ id j e.
        elim (Dict.get-set-some ℕ_discrete job.id id
          (record job {
            start_time = s.current_time;
            departure_time = s.current_time + expovariate config.mu_rate s.draws;
          })
          j s.jobs e) [
            | inl (p, q) ↦
                subst
                  (λ x.
                    (x.arrival_time ≤ s.current_time)
                    × (0 < departures_of id (serve expovariate heappop config job s).events
                        → Starts s.current_time x))
                  q (l, λ m. (l, omega arith))
            | inr (p, q) ↦ let (a, b) = arrived id j q in (a, λ m. b (ground (arith, m, p)))
          ],
    done,
  )

  admit-Timely :
      (job : Job) (s : Simulation)
      → job.arrival_time ≤ s.current_time
      → Timely s
      → Timely (admit expovariate heappop config job s)
  unfolding admit
  admit-Timely job s l h = elim (Bool-cases (ltb s.busy_servers config.servers)) [
    | inl e ↦ rw (e, admit) (serve-Timely job (record s { busy_servers = s.busy_servers + 1 }) l h)
    | inr e ↦
        rw (e, admit)
          (elim (Bool-cases
            ((config.max_queue_size == 0) || ltb (length s.queue) config.max_queue_size)) [
              | inl q ↦ rw q h
              | inr q ↦ rw q h
            ])
  ]

  schedule_arrival-Timely :
      (s : Simulation) → Timely s → Timely (schedule_arrival expovariate heappop config s)
  unfolding schedule_arrival
  schedule_arrival-Timely s (future, arrived, done) =
      elim (Bool-cases
        (ltb (s.current_time + expovariate config.lambda_rate s.draws) config.duration)) [
          | inl e ↦
              rw (e, schedule_arrival)
                (
                  (omega arith, future),
                  λ id j q. ((arrived id j q).0, λ m. (arrived id j q).1 (omega (arith, m))),
                  done,
                )
          | inr e ↦ rw (e, schedule_arrival) (future, arrived, done)
        ]

  arrive-Timely :
      (s : Simulation) → IsTracked s → Timely s → Timely (arrive expovariate heappop config s)
  unfolding arrive
  arrive-Timely s tracked (future, arrived, done) =
      let job_id = s.next_job_id + 1 in
      let job = new_job job_id s.current_time in
      let t = record s { next_job_id = job_id; jobs = Dict.set ℕ_discrete job_id job s.jobs } in
      schedule_arrival-Timely (admit expovariate heappop config job t) (
        admit-Timely job t (omega arith) (
          future,
          λ id j e. elim (Dict.get-set-some ℕ_discrete job_id id job j s.jobs e) [
            | inl (p, q) ↦ (
              ground (arith, ap (λ x. x.arrival_time) q),
              λ m. absurd (ground (arith, m, p, tracked.0 id, tracked.1 id)),
            )
            | inr (p, q) ↦ arrived id j q
          ],
          done,
        ))

  complete-Timely :
      (job_id : ℕ) (s : Simulation)
      → ((job : Job) → Dict.get ℕ_discrete job_id s.jobs ≡ some job → Starts s.current_time job)
      → Timely s
      → Timely (complete expovariate heappop config job_id s)
  unfolding complete
  complete-Timely job_id s starts (future, arrived, done) =
      elim (Option-cases (Dict.get ℕ_discrete job_id s.jobs)) [
        | inl e ↦ rw (e, complete) (future, arrived, done)
        | inr (job, e) ↦
            rw (e, complete)
              (
                future,
                λ id j q.
                    arrived id j (ground (arith, q, Dict.get-remove ℕ_discrete job_id id s.jobs)),
                All-append InOrder s.completed_jobs (record job { departure_time = s.current_time })
                    done (starts job e),
              )
      ]

  serve_id-Timely :
      (job_id : ℕ) (s : Simulation)
      → Timely s
      → Timely (serve_id expovariate heappop config job_id s)
  unfolding serve_id
  serve_id-Timely job_id s h = elim (Option-cases (Dict.get ℕ_discrete job_id s.jobs)) [
    | inl e ↦ rw (e, serve_id) h
    | inr (job, e) ↦ rw (e, serve_id) (serve-Timely job s (h.1 job_id job e).0 h)
  ]

  release-Timely :
      (queue : List ℕ) (s : Simulation)
      → Timely s
      → Timely (release expovariate heappop config queue s)
  unfolding release
  release-Timely [] s h = h
  release-Timely (job_id ∷ queue) s h = serve_id-Timely job_id (record s { queue = queue }) h

  depart-Timely :
      (job_id : ℕ) (s : Simulation)
      → ((job : Job) → Dict.get ℕ_discrete job_id s.jobs ≡ some job → Starts s.current_time job)
      → Timely s
      → Timely (depart expovariate heappop config job_id s)
  unfolding depart
  depart-Timely job_id s starts h =
      let done = complete expovariate heappop config job_id s in
      release-Timely done.queue done (complete-Timely job_id s starts h)

  handle-Timely :
      (type : EventType) (job_id : ℕ) (s : Simulation)
      → (type ≡ arrival → IsTracked s)
      → (type ≡ departure
          → (job : Job) → Dict.get ℕ_discrete job_id s.jobs ≡ some job
          → Starts s.current_time job)
      → Timely s
      → Timely (handle expovariate heappop config type job_id s)
  unfolding handle
  handle-Timely arrival job_id s f g h = arrive-Timely s (f refl) h
  handle-Timely departure job_id s f g h = depart-Timely job_id s (g refl) h

  -- No event of the heap is before the clock.
  earliest :
      (now : ℕ) (events : List Event)
      → All (λ e. now ≤ e.time) events
      → sum (λ e. if ltb e.time now then 1 else 0) events ≡ 0
  earliest now [] h = refl
  earliest now (e ∷ events) h = ground (arith, h.0, earliest now events h.1)

  round-Timely :
      Pops heappop
      → (s t : Simulation) → round expovariate heappop config s ≡ some t
      → Counts config s × Timely s
      → Counts config t × Timely t
  unfolding advance
  round-Timely pops s t h (counts, (future, arrived, done)) =
      let ((e, rest), popped, k) = round-some expovariate heappop config s t h in
      let (sums, first) = pops.2 s.events e rest popped in
      let now = advance expovariate heappop config e rest s in
      let l = earliest s.current_time s.events future in
      let later : s.current_time ≤ e.time =
        ground (arith, l, sums (λ x. if ltb x.time s.current_time then 1 else 0)) in
      (
        round-Counts expovariate heappop config pops s t h counts,
        subst Timely (sym k) (
            handle-Timely e.type e.job_id now
              (λ p. (
                λ id. ground (arith, p, counts.0.0 id, sums (λ x. leaves_of id x.type x.job_id)),
                counts.0.1,
                counts.0.2,
              ))
              (λ p job q.
                let (a, b) = arrived e.job_id job q in
                let (c, d) =
                  b (ground (arith, p, sums (λ x. leaves_of e.job_id x.type x.job_id))) in
                (c, omega (arith, d, later)))
              (
                first,
                λ id job q.
                    let (a, b) = arrived id job q in
                    (
                      omega (arith, a, later),
                      λ m.
                          let (c, d) =
                            b (omega (arith, m, sums (λ x. leaves_of id x.type x.job_id))) in
                          (c, omega (arith, d, later)),
                    ),
                done,
              )),
      )

  init-Timely : Timely (init expovariate heappop config)
  unfolding init Dict.get
  init-Timely = ((omega arith, tt), λ id job e. ground (arith, e), tt)

  -- Where `heappop` takes an earliest event, each completed job of a run starts no earlier than it
  -- arrives and departs no earlier than it starts, and the times in the system are in total the times
  -- of waiting and of service.
  pub loop-InOrder :
      Pops heappop
      → (fuel : ℕ) (s : Simulation)
      → loop expovariate heappop config fuel (init expovariate heappop config) ≡ some s
      → All InOrder s.completed_jobs
        × (total (system_times s.completed_jobs)
            ≡ total (wait_times s.completed_jobs) + total (service_times s.completed_jobs))
  loop-InOrder pops fuel s h =
      let (counts, timely) =
        loop_induction expovariate heappop config (λ x. Counts config x × Timely x)
          (round-Timely pops) fuel (init expovariate heappop config) s h
          (init-Counts expovariate heappop config, init-Timely) in
      (timely.2, total_times s.completed_jobs timely.2)
