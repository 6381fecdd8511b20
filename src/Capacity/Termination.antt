-- ===== src/Capacity/Termination.antt =====
-- The rounds of the loop (capacity_simulator.py, `run_mm1_simulation`).
use mathlib.Core.Path.{subst}
use native.Mathlib.Nat.{zero-add}
use assets_system.Prelude.Dict
use assets_system.Prelude.{
  ℕ, zero, suc, ◌+◌, ◌-◌, ◌*◌, ◌≤◌, ◌<◌, ◌≡◌, refl, ap, ◌⊎◌, inl, inr, Option, none, some, List, [],
  ◌∷◌, ◌==◌, if◌then◌else◌, ℕ_discrete, arith, Option-cases,
}
use assets_system.Capacity.Rounds.{round-some, round-none}
use assets_system.Capacity.{
  init, advance, admit, schedule_arrival, arrive, depart, handle, round, loop, Event, EventType,
  arrival, departure, Config, Simulation, new_job, Pops,
}
use assets_system.Capacity.Weights.{
  weight, event_weight, rounds, rounds_mono, rounds-admit, rounds-depart, admit-clock, draws-admit,
  draws-depart, draws-handle,
}

module _ (expovariate : ℕ → ℕ → ℕ) (heappop : List Event → Option (Event × List Event))
    (config : Config) where
  -- How many of the first draws would put two arrivals on one tick.
  abbrev pub zeros : ℕ → ℕ
  zeros zero = 0
  zeros (suc n) = zeros n + (if expovariate config.lambda_rate n == 0 then 1 else 0)

  zeros_mono : (k m : ℕ) → zeros m ≤ zeros (k + m)
  zeros_mono zero m = omega (arith, ap zeros (zero-add m))
  zeros_mono (suc k) m =
      let same : suc k + m ≡ suc (k + m) = omega arith in rw same (omega (arith, zeros_mono k m))

  zeros-le : (m n : ℕ) → m ≤ n → zeros m ≤ zeros n
  zeros-le m n h =
      let same : n - m + m ≡ n = omega (arith, h) in
      subst (λ k. zeros m ≤ zeros k) same (zeros_mono (n - m) m)

  -- The end of the run, later by the zero draws that are left.
  abbrev bound : ℕ → ℕ → ℕ
  bound z draws = config.duration + (z - zeros draws)

  bound-le : (z m n : ℕ) → m ≤ n → bound z n ≤ bound z m
  bound-le z m n h = omega (arith, zeros-le m n h)

  abbrev potential : ℕ → Simulation → ℕ
  potential z s = rounds (bound z s.draws) s

  rounds-schedule_arrival :
      (z : ℕ) (s : Simulation)
      → zeros (suc s.draws) ≤ z
      → potential z (schedule_arrival expovariate heappop config s)
        ≤ potential z s + 2 * (bound z s.draws - s.current_time)
  unfolding schedule_arrival
  rounds-schedule_arrival z s few =
      let next : s.draws + 1 ≡ suc s.draws = omega arith in
      let fewer =
        rounds_mono (bound z (suc s.draws)) (bound z s.draws) s
          (bound-le z s.draws (suc s.draws) (omega arith)) in
      rw next (ground (arith, fewer, few))

  rounds-arrive :
      (z : ℕ) (s : Simulation)
      → zeros (s.draws + 2) ≤ z
      → potential z (arrive expovariate heappop config s)
        ≤ potential z s + 2 * (bound z s.draws - s.current_time) + 1
  unfolding arrive
  rounds-arrive z s few =
      let job_id = s.next_job_id + 1 in
      let job = new_job job_id s.current_time in
      let t = record s { next_job_id = job_id; jobs = Dict.set ℕ_discrete job_id job s.jobs } in
      let u = admit expovariate heappop config job t in
      let less = bound-le z s.draws u.draws (draws-admit expovariate heappop config job t).0 in
      let few' =
        zeros-le (suc u.draws) (s.draws + 2)
          (omega (arith, (draws-admit expovariate heappop config job t).1)) in
      omega (
        arith,
        rounds-admit expovariate heappop config (bound z s.draws) job t,
        rounds_mono (bound z u.draws) (bound z s.draws) u less,
        less,
        admit-clock expovariate heappop config job t,
        rounds-schedule_arrival z u (omega (arith, few, few')),
      )

  rounds-handle :
      (z : ℕ) (type : EventType) (job_id : ℕ) (s : Simulation)
      → zeros (s.draws + 2) ≤ z
      → potential z (handle expovariate heappop config type job_id s)
        < potential z s + weight (bound z s.draws) type s.current_time
  unfolding handle
  rounds-handle z arrival job_id s few = omega (arith, rounds-arrive z s few)
  rounds-handle z departure job_id s few =
      let t = depart expovariate heappop config job_id s in
      omega (
        arith,
        rounds-depart expovariate heappop config (bound z s.draws) job_id s,
        rounds_mono (bound z t.draws) (bound z s.draws) t
            (bound-le z s.draws t.draws (draws-depart expovariate heappop config job_id s).0),
      )

  rounds-round :
      (z : ℕ) (s t : Simulation)
      → zeros (s.draws + 2) ≤ z
      → Pops heappop
      → round expovariate heappop config s ≡ some t
      → (potential z t < potential z s) × (t.draws ≤ s.draws + 2)
  unfolding advance
  rounds-round z s t few pops h =
      let ((e, rest), popped, k) = round-some expovariate heappop config s t h in
      let weights = (pops.2 s.events e rest popped).0 (event_weight (bound z s.draws)) in
      let fewer =
        rounds-handle z e.type e.job_id (advance expovariate heappop config e rest s) few in
      (
        omega (arith, weights, fewer, ap (potential z) k),
        omega (
          arith,
          draws-handle expovariate heappop config e.type e.job_id
              (advance expovariate heappop config e rest s),
          ap (λ x. x.draws) k,
        ),
      )

  events-none : Pops heappop → (events : List Event) → heappop events ≡ none → events ≡ []
  events-none pops [] h = refl
  events-none pops (e ∷ events) h = let (p, k) = pops.1 e events in cc

  -- the loop ends, with no event left or after the end
  abbrev Ends : ℕ → Simulation → Type 0
  Ends fuel s =
      (t : Simulation) × (loop expovariate heappop config fuel s ≡ some t)
      × ((config.duration ≤ t.current_time) ⊎ (t.events ≡ []))

  loop-Ends :
      (z draws fuel : ℕ) (s : Simulation)
      → zeros draws ≤ z
      → Pops heappop
      → s.draws + 2 * fuel ≤ draws
      → potential z s < fuel
      → Ends fuel s
  unfolding loop
  loop-Ends z draws zero s few pops d h = absurd (omega (arith, h))
  loop-Ends z draws (suc fuel) s few pops d h =
      elim (Option-cases (round expovariate heappop config s)) [
        | inl e ↦ (
          s,
          rw (e, loop) refl,
          elim (round-none expovariate heappop config s e) [
            | inl l ↦ inl l
            | inr k ↦ inr (events-none pops s.events k)
          ],
        )
        | inr (u, e) ↦
            let (less, drawn) =
              rounds-round z s u
                (omega (arith, few, zeros-le (s.draws + 2) draws (omega (arith, d)))) pops e in
            let (t, k, ends) =
              loop-Ends z draws fuel u few pops (omega (arith, d, drawn))
                (omega (arith, h, less)) in
            (t, rw (e, loop) k, ends)
      ]

  -- Where `heappop` takes an earliest event, and at most `z` of the first `4 * (duration + z) + 7`
  -- draws would be 0 ticks between arrivals, the loop ends within a fuel of
  -- `2 * (duration + z) + 3`, with no event left or with the clock at the end or after it.
  pub loop-init-Ends :
      (z : ℕ)
      → zeros (4 * (config.duration + z) + 7) ≤ z
      → Pops heappop
      → (t : Simulation) × (loop expovariate heappop config
            (2 * (config.duration + z) + 3)
            (init expovariate heappop config)
          ≡ some t)
        × ((config.duration ≤ t.current_time) ⊎ (t.events ≡ []))
  unfolding init
  loop-init-Ends z few pops =
      loop-Ends z (4 * (config.duration + z) + 7) (2 * (config.duration + z) + 3)
        (init expovariate heappop config) few pops (omega arith) (omega arith)
