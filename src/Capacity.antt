-- ===== src/Capacity.antt =====
-- systems-engineering/performance-engineering/impl/capacity_lab/capacity_simulator.py: the loop of
-- `run_mm1_simulation`. Times are whole ticks. A job object is found by its id in `jobs`, where it
-- stays until it is completed, so the queue holds ids. `random.expovariate` and `heapq.heappop` are
-- parameters: the first gets the rate and the number of draws before, the second any bag of events.
pub mod Rounds
pub mod Counts
pub mod Conservation
pub mod Weights
pub mod Termination
pub mod Times
mod Tests
use assets_system.Prelude.Dict
use assets_system.Prelude.Dict.{Dict}
use assets_system.Prelude.{
  ℕ, zero, suc, ◌+◌, ◌-◌, ◌*◌, ◌≤◌, ◌≡◌, Bool, true, false, ◌||◌, Option, none, some, List, [], ◌∷◌,
  ◌++◌, ltb, if◌then◌else◌, ◌==◌, length, map, All, ℕ_discrete,
}

pub data EventType : Type 0 where
  arrival departure : EventType

pub record Event : Type 0 where
  pub time : ℕ
  pub type : EventType
  pub job_id : ℕ

pub record Job : Type 0 where
  pub id : ℕ
  pub arrival_time : ℕ
  pub start_time : ℕ
  pub departure_time : ℕ

-- The arguments of the function.
pub record Config : Type 0 where
  pub lambda_rate : ℕ
  pub mu_rate : ℕ
  pub servers : ℕ
  pub duration : ℕ
  pub max_queue_size : ℕ

-- The variables of the loop, and the number of random draws so far.
pub record Simulation : Type 0 where
  pub events : List Event
  pub current_time : ℕ
  pub queue : List ℕ
  pub busy_servers : ℕ
  pub jobs : Dict ℕ Job
  pub next_job_id : ℕ
  pub completed_jobs : List Job
  pub dropped_jobs : ℕ
  pub area_queue : ℕ
  pub area_system : ℕ
  pub draws : ℕ

-- `Job(id, arrival_time)`
abbrev pub new_job : ℕ → ℕ → Job
new_job job_id now = record { id = job_id; arrival_time = now; start_time = 0; departure_time = 0 }

-- The sum of a quantity over the events.
abbrev pub sum : (Event → ℕ) → List Event → ℕ
sum f [] = 0
sum f (e ∷ events) = f e + sum f events

-- `heappop` takes an earliest event out of the bag.
abbrev pub Pops : (List Event → Option (Event × List Event)) → Type 0
Pops heappop =
    (heappop [] ≡ none)
    × ((e : Event) (events : List Event)
        → (p : Event × List Event) × (heappop (e ∷ events) ≡ some p))
    × ((events : List Event) (e : Event) (rest : List Event)
        → heappop events ≡ some (e, rest)
        → ((f : Event → ℕ) → sum f events ≡ f e + sum f rest) × All (λ x. e.time ≤ x.time) rest)

module _ (expovariate : ℕ → ℕ → ℕ) (heappop : List Event → Option (Event × List Event))
    (config : Config) where
  unfoldable pub init : Simulation
  init = record {
    events = record { time = expovariate config.lambda_rate 0; type = arrival; job_id = 0 } ∷ [];
    current_time = 0;
    queue = [];
    busy_servers = 0;
    jobs = [];
    next_job_id = 0;
    completed_jobs = [];
    dropped_jobs = 0;
    area_queue = 0;
    area_system = 0;
    draws = 1;
  }

  -- the clock and the areas, for an event that is taken out of the heap
  unfoldable pub advance : Event → List Event → Simulation → Simulation
  advance event rest s =
      let dt = event.time - s.current_time in
      record s {
        events = rest;
        current_time = event.time;
        area_queue = s.area_queue + length s.queue * dt;
        area_system = s.area_system + (length s.queue + s.busy_servers) * dt;
      }

  -- a job starts: its times, and the event of its departure
  unfoldable pub serve : Job → Simulation → Simulation
  serve job s =
      let departure_time = s.current_time + expovariate config.mu_rate s.draws in
      record s {
        jobs =
            Dict.set ℕ_discrete job.id
              (record job { start_time = s.current_time; departure_time = departure_time }) s.jobs;
        events = record { time = departure_time; type = departure; job_id = job.id } ∷ s.events;
        draws = s.draws + 1;
      }

  -- the new job is served, waits or is dropped
  unfoldable pub admit : Job → Simulation → Simulation
  unfolding serve
  admit job s =
      if ltb s.busy_servers config.servers
      then serve job (record s { busy_servers = s.busy_servers + 1 })
      else if (config.max_queue_size == 0) || ltb (length s.queue) config.max_queue_size
      then record s { queue = s.queue ++ job.id ∷ [] }
      else record s { dropped_jobs = s.dropped_jobs + 1 }

  -- the event of the next arrival, if it is before the end
  unfoldable pub schedule_arrival : Simulation → Simulation
  schedule_arrival s =
      let next_arrival = s.current_time + expovariate config.lambda_rate s.draws in
      let drawn = record s { draws = s.draws + 1 } in
      if ltb next_arrival config.duration
      then record drawn {
        events = record { time = next_arrival; type = arrival; job_id = s.next_job_id } ∷ s.events;
      }
      else drawn

  unfoldable pub arrive : Simulation → Simulation
  unfolding admit schedule_arrival
  arrive s =
      let job_id = s.next_job_id + 1 in
      let job = new_job job_id s.current_time in
      schedule_arrival (
        admit job (record s { next_job_id = job_id; jobs = Dict.set ℕ_discrete job_id job s.jobs }))

  unfoldable pub complete : ℕ → Simulation → Simulation
  complete job_id s = elim (Dict.get ℕ_discrete job_id s.jobs) [
    | none ↦ s
    | some job ↦ record s {
      completed_jobs = s.completed_jobs ++ record job { departure_time = s.current_time } ∷ [];
      jobs = Dict.remove ℕ_discrete job_id s.jobs;
    }
  ]

  -- the job of an id of the queue, which `jobs` has
  unfoldable pub serve_id : ℕ → Simulation → Simulation
  unfolding serve
  serve_id job_id s = elim (Dict.get ℕ_discrete job_id s.jobs) [ none ↦ s | some job ↦ serve job s ]

  -- a server that is free takes the head of the queue
  unfoldable pub release : List ℕ → Simulation → Simulation
  unfolding serve_id
  release [] s = record s { busy_servers = s.busy_servers - 1 }
  release (job_id ∷ queue) s = serve_id job_id (record s { queue = queue })

  unfoldable pub depart : ℕ → Simulation → Simulation
  unfolding complete release
  depart job_id s = let done = complete job_id s in release done.queue done

  unfoldable pub handle : EventType → ℕ → Simulation → Simulation
  unfolding arrive depart
  handle arrival job_id s = arrive s
  handle departure job_id s = depart job_id s

  -- a round of the loop, or `none` where the loop ends
  unfoldable pub round : Simulation → Option Simulation
  unfolding advance handle
  round s =
      if ltb s.current_time config.duration
      then elim (heappop s.events) [
        | none ↦ none
        | some (event, rest) ↦ some (handle event.type event.job_id (advance event rest s))
      ]
      else none

  -- The loop, where `none` is a fuel that is too little.
  unfoldable pub loop : ℕ → Simulation → Option Simulation
  unfolding round
  loop zero s = none
  loop (suc fuel) s = elim (round s) [ none ↦ some s | some t ↦ loop fuel t ]

-- The times of the completed jobs. A job that is completed has its times in this order, so that the
-- differences of natural numbers are the source's.
unfoldable pub wait_times : List Job → List ℕ
wait_times completed_jobs = map (λ j. j.start_time - j.arrival_time) completed_jobs

unfoldable pub system_times : List Job → List ℕ
system_times completed_jobs = map (λ j. j.departure_time - j.arrival_time) completed_jobs

unfoldable pub service_times : List Job → List ℕ
service_times completed_jobs = map (λ j. j.departure_time - j.start_time) completed_jobs
