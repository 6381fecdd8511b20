-- ===== src/Capacity/Counts.antt =====
-- The jobs that the loop of capacity_simulator.py keeps: each waits or is served once.
use assets_system.Prelude.Dict
use assets_system.Prelude.{
  ℕ, ◌+◌, ◌≤◌, ◌<◌, ◌≡◌, sym, ap, ◌∙◌, inl, inr, Bool, false, ◌||◌, Option, some, List, [], ◌∷◌,
  ◌++◌, ltb, if◌then◌else◌, ◌==◌, length, ℕ_discrete, arith, Bool-cases, Option-cases,
}
use mathlib.Core.Path.{subst}
use assets_system.Prelude.Dict.{Dict}
use assets_system.Prelude.Keys
use assets_system.Capacity.{
  serve, admit, complete, serve_id, Event, EventType, arrival, departure, Config, Simulation, Job,
  sum,
}

-- 1 for the departure of a job, and for a departure
abbrev pub leaves : EventType → ℕ
leaves arrival = 0
leaves departure = 1

abbrev pub departures : List Event → ℕ
departures events = sum (λ e. leaves e.type) events

abbrev pub leaves_of : ℕ → EventType → ℕ → ℕ
leaves_of id arrival job_id = 0
leaves_of id departure job_id = if id == job_id then 1 else 0

abbrev pub departures_of : ℕ → List Event → ℕ
departures_of id events = sum (λ e. leaves_of id e.type e.job_id) events

abbrev pub waits : ℕ → List ℕ → ℕ
waits id [] = 0
waits id (x ∷ xs) = (if id == x then 1 else 0) + waits id xs

pub waits-append :
    (id x : ℕ) (xs : List ℕ) → waits id (xs ++ x ∷ []) ≡ waits id xs + (if id == x then 1 else 0)
waits-append id x [] = omega arith
waits-append id x (y ∷ xs) = omega (arith, waits-append id x xs)

abbrev pub has : Simulation → ℕ → Bool
has s id = Keys.has ℕ_discrete s.jobs id

-- A job that waits or is served is in `jobs` and is counted once.
abbrev pub Known : Simulation → Type 0
Known s = (id : ℕ) → waits id s.queue + departures_of id s.events ≤ (if has s id then 1 else 0)

-- No id was given that is larger than the last one.
abbrev pub Numbered : Simulation → Type 0
Numbered s = (id : ℕ) → s.next_job_id < id → has s id ≡ false

-- The key of a job is its id.
abbrev pub IsKeyed : Dict ℕ Job → Type 0
IsKeyed jobs = (id : ℕ) (job : Job) → Dict.get ℕ_discrete id jobs ≡ some job → job.id ≡ id

pub IsKeyed-set :
    (job : Job) (jobs : Dict ℕ Job) → IsKeyed jobs → IsKeyed (Dict.set ℕ_discrete job.id job jobs)
IsKeyed-set job jobs h id j e = elim (Dict.get-set-some ℕ_discrete job.id id job j jobs e) [
  | inl (p, q) ↦ sym (ap (λ x. x.id) q) ∙ p
  | inr (p, q) ↦ h id j q
]

pub IsKeyed-remove :
    (x : ℕ) (jobs : Dict ℕ Job) → IsKeyed jobs → IsKeyed (Dict.remove ℕ_discrete x jobs)
IsKeyed-remove x jobs h id j e = h id j (ground (arith, e, Dict.get-remove ℕ_discrete x id jobs))

abbrev pub Keyed : Simulation → Type 0
Keyed s = IsKeyed s.jobs

abbrev pub IsTracked : Simulation → Type 0
IsTracked s = Known s × Numbered s × Keyed s

abbrev pub Conserves : Simulation → Type 0
Conserves s =
    s.next_job_id ≡ length s.completed_jobs + s.dropped_jobs + length s.queue + s.busy_servers

abbrev pub Bounded : Config → Simulation → Type 0
Bounded config s =
    (s.busy_servers ≤ config.servers)
    × (0 < length s.queue → s.busy_servers ≡ config.servers)
    × (0 < config.max_queue_size → length s.queue ≤ config.max_queue_size)

abbrev pub Balanced : Simulation → Type 0
Balanced s = Conserves s × (departures s.events ≡ s.busy_servers)

abbrev pub Counts : Config → Simulation → Type 0
Counts config s = IsTracked s × Balanced s × Bounded config s

-- One more job is known than waits or is served.
abbrev pub Spare : ℕ → Simulation → Type 0
Spare x s =
    (id : ℕ)
    → waits id s.queue + departures_of id s.events + (if id == x then 1 else 0)
      ≤ (if has s id then 1 else 0)

abbrev pub IsTrackedBut : ℕ → Simulation → Type 0
IsTrackedBut x s = Spare x s × Numbered s × Keyed s

-- The counts where `arrived` jobs are nowhere yet, `left` jobs are completed whose server is counted
-- as busy, and `free` servers are counted as busy that have no job.
abbrev pub Owes : ℕ → ℕ → ℕ → Simulation → Type 0
Owes arrived left free s =
    (s.next_job_id + left
      ≡ length s.completed_jobs + s.dropped_jobs + length s.queue + s.busy_servers + arrived)
    × (departures s.events + free ≡ s.busy_servers)

pub spare_job :
    (x : ℕ) (s : Simulation)
    → IsTrackedBut x s
    → (job : Job) × (Dict.get ℕ_discrete x s.jobs ≡ some job)
spare_job x s h = elim (Option-cases (Dict.get ℕ_discrete x s.jobs)) [
  | inl e ↦ absurd (ground (arith, h.0 x, e))
  | inr found ↦ found
]

module _ (expovariate : ℕ → ℕ → ℕ) (heappop : List Event → Option (Event × List Event))
    (config : Config) where
  pub serve-IsTracked :
      (job : Job) (s : Simulation)
      → IsTrackedBut job.id s
      → IsTracked (serve expovariate heappop config job s)
  unfolding serve
  serve-IsTracked job s (spare, numbered, keyed) =
      let started = record job {
        start_time = s.current_time;
        departure_time = s.current_time + expovariate config.mu_rate s.draws;
      } in
      (
        λ id. ground (arith, spare id, Keys.has-set ℕ_discrete job.id id started s.jobs),
        λ id l.
            ground
              (arith, spare id, numbered id l, Keys.has-set ℕ_discrete job.id id started s.jobs),
        IsKeyed-set started s.jobs keyed,
      )

  pub admit-IsTracked :
      (job : Job) (s : Simulation)
      → IsTrackedBut job.id s
      → IsTracked (admit expovariate heappop config job s)
  unfolding admit
  admit-IsTracked job s h = elim (Bool-cases (ltb s.busy_servers config.servers)) [
    | inl e ↦ rw (e, admit) (serve-IsTracked job (record s { busy_servers = s.busy_servers + 1 }) h)
    | inr e ↦
        rw (e, admit)
          (elim (Bool-cases
            ((config.max_queue_size == 0) || ltb (length s.queue) config.max_queue_size)) [
              | inl q ↦
                  rw q (λ id. ground (arith, h.0 id, waits-append id job.id s.queue), h.1, h.2)
              | inr q ↦ rw q (λ id. omega (arith, h.0 id), h.1, h.2)
            ])
  ]

  pub complete-IsTracked :
      (job_id : ℕ) (s : Simulation)
      → IsTrackedBut job_id s
      → IsTracked (complete expovariate heappop config job_id s)
  unfolding complete
  complete-IsTracked job_id s h =
      let (job, e) = spare_job job_id s h in
      rw (e, complete)
        (
          λ id. ground (arith, h.0 id, Keys.has-remove ℕ_discrete job_id id s.jobs),
          λ id l. ground (arith, h.1 id l, Keys.has-remove ℕ_discrete job_id id s.jobs),
          IsKeyed-remove job_id s.jobs h.2,
        )

  pub serve_id-IsTracked :
      (job_id : ℕ) (s : Simulation)
      → IsTrackedBut job_id s
      → IsTracked (serve_id expovariate heappop config job_id s)
  unfolding serve_id
  serve_id-IsTracked job_id s h =
      let (job, e) = spare_job job_id s h in
      rw (e, serve_id)
        (serve-IsTracked job s (subst (λ x. IsTrackedBut x s) (sym (h.2 job_id job e)) h))
