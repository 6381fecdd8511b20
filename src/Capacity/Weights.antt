-- ===== src/Capacity/Weights.antt =====
-- How the steps of the loop change the weights of the events and the draws (capacity_simulator.py).
use assets_system.Prelude.Dict
use assets_system.Prelude.{
  ℕ, ◌+◌, ◌-◌, ◌*◌, ◌≤◌, ◌≡◌, refl, inl, inr, Option, List, [], ◌∷◌, length, length-append,
  ℕ_discrete, arith, Option-cases,
}
use assets_system.Capacity.{
  serve, admit, schedule_arrival, arrive, complete, serve_id, release, depart, handle, Event,
  EventType, arrival, departure, Config, Simulation, Job, new_job, sum,
}

-- The rounds that an event can cause: a departure one, an arrival two and those of the arrivals after
-- it, where each comes a tick later or uses up one of the draws that may be 0.
abbrev pub weight : ℕ → EventType → ℕ → ℕ
weight duration arrival time = 2 * (duration - time) + 2
weight duration departure time = 1

abbrev pub event_weight : ℕ → Event → ℕ
event_weight duration e = weight duration e.type e.time

-- A bound on the rounds that are left.
abbrev pub rounds : ℕ → Simulation → ℕ
rounds duration s = sum (event_weight duration) s.events + length s.queue

weight_mono :
    (end end' : ℕ) (type : EventType) (time : ℕ)
    → end ≤ end'
    → weight end type time ≤ weight end' type time
weight_mono end end' arrival time h = omega arith
weight_mono end end' departure time h = omega arith

event_weight_mono :
    (end end' : ℕ) (e : Event) → end ≤ end' → event_weight end e ≤ event_weight end' e
event_weight_mono end end' e h = weight_mono end end' e.type e.time h

sum_mono :
    (end end' : ℕ) (events : List Event)
    → end ≤ end'
    → sum (event_weight end) events ≤ sum (event_weight end') events
sum_mono end end' [] h = omega arith
sum_mono end end' (e ∷ events) h =
    omega (arith, event_weight_mono end end' e h, sum_mono end end' events h)

pub rounds_mono : (end end' : ℕ) (s : Simulation) → end ≤ end' → rounds end s ≤ rounds end' s
rounds_mono end end' s h = omega (arith, sum_mono end end' s.events h)

module _ (expovariate : ℕ → ℕ → ℕ) (heappop : List Event → Option (Event × List Event))
    (config : Config) where
  rounds-serve :
      (end : ℕ) (job : Job) (s : Simulation)
      → rounds end (serve expovariate heappop config job s) ≡ rounds end s + 1
  unfolding serve
  rounds-serve end job s = omega arith

  pub rounds-admit :
      (end : ℕ) (job : Job) (s : Simulation)
      → rounds end (admit expovariate heappop config job s) ≤ rounds end s + 1
  unfolding admit
  rounds-admit end job s = ground (
    arith,
    rounds-serve end job (record s { busy_servers = s.busy_servers + 1 }),
    length-append s.queue (job.id ∷ []),
  )

  rounds-serve_id :
      (end : ℕ) (job_id : ℕ) (s : Simulation)
      → rounds end (serve_id expovariate heappop config job_id s) ≤ rounds end s + 1
  unfolding serve_id
  rounds-serve_id end job_id s = elim (Option-cases (Dict.get ℕ_discrete job_id s.jobs)) [
    | inl e ↦ rw (e, serve_id) (omega arith)
    | inr (job, e) ↦ rw (e, serve_id) (omega (arith, rounds-serve end job s))
  ]

  rounds-release :
      (end : ℕ) (queue : List ℕ) (s : Simulation)
      → s.queue ≡ queue
      → rounds end (release expovariate heappop config queue s) ≤ rounds end s
  unfolding release
  rounds-release end [] s h = omega arith
  rounds-release end (job_id ∷ queue) s h =
      rw h (omega (arith, rounds-serve_id end job_id (record s { queue = queue })))

  rounds-complete :
      (end : ℕ) (job_id : ℕ) (s : Simulation)
      → rounds end (complete expovariate heappop config job_id s) ≡ rounds end s
  unfolding complete
  rounds-complete end job_id s = elim (Option-cases (Dict.get ℕ_discrete job_id s.jobs)) [
    | inl e ↦ rw (e, complete) refl
    | inr (job, e) ↦ rw (e, complete) refl
  ]

  pub rounds-depart :
      (end : ℕ) (job_id : ℕ) (s : Simulation)
      → rounds end (depart expovariate heappop config job_id s) ≤ rounds end s
  unfolding depart
  rounds-depart end job_id s =
      let done = complete expovariate heappop config job_id s in
      omega (arith, rounds-complete end job_id s, rounds-release end done.queue done refl)

  pub admit-clock :
      (job : Job) (s : Simulation)
      → (admit expovariate heappop config job s).current_time ≡ s.current_time
  unfolding admit serve
  admit-clock job s = ground arith

  pub draws-admit :
      (job : Job) (s : Simulation)
      → (s.draws ≤ (admit expovariate heappop config job s).draws)
        × ((admit expovariate heappop config job s).draws ≤ s.draws + 1)
  unfolding admit serve
  draws-admit job s = ground arith

  draws-complete :
      (job_id : ℕ) (s : Simulation) → (complete expovariate heappop config job_id s).draws ≡ s.draws
  unfolding complete
  draws-complete job_id s = elim (Option-cases (Dict.get ℕ_discrete job_id s.jobs)) [
    | inl e ↦ rw (e, complete) refl
    | inr (job, e) ↦ rw (e, complete) refl
  ]

  draws-release :
      (queue : List ℕ) (s : Simulation)
      → (s.draws ≤ (release expovariate heappop config queue s).draws)
        × ((release expovariate heappop config queue s).draws ≤ s.draws + 1)
  unfolding release serve_id serve
  draws-release [] s = (omega arith, omega arith)
  draws-release (job_id ∷ queue) s = elim (Option-cases (Dict.get ℕ_discrete job_id s.jobs)) [
    | inl e ↦ rw (e, serve_id) (omega arith, omega arith)
    | inr (job, e) ↦ rw (e, serve_id) (omega arith, omega arith)
  ]

  pub draws-depart :
      (job_id : ℕ) (s : Simulation)
      → (s.draws ≤ (depart expovariate heappop config job_id s).draws)
        × ((depart expovariate heappop config job_id s).draws ≤ s.draws + 1)
  unfolding depart
  draws-depart job_id s =
      let done = complete expovariate heappop config job_id s in
      let (more, fewer) = draws-release done.queue done in
      let same = draws-complete job_id s in (omega (arith, same, more), omega (arith, same, fewer))

  pub draws-handle :
      (type : EventType) (job_id : ℕ) (s : Simulation)
      → (handle expovariate heappop config type job_id s).draws ≤ s.draws + 2
  unfolding handle arrive schedule_arrival
  draws-handle arrival job_id s =
      let id = s.next_job_id + 1 in
      let job = new_job id s.current_time in
      let t = record s { next_job_id = id; jobs = Dict.set ℕ_discrete id job s.jobs } in
      ground (arith, (draws-admit job t).1)
  draws-handle departure job_id s = omega (arith, (draws-depart job_id s).1)
