-- ===== src/Capacity/Tests.antt =====
-- Runs of the simulation of capacity_simulator.py on a sorted bag, and the theorems at one run.
use mathlib.Core.Option.{some-injective}
use mathlib.Core.Path.{subst}
use assets_system.Prelude.Dict
use assets_system.Prelude.{
  ◌==◌, ℕ, ◌+◌, ◌≤◌, ◌≡◌, refl, sym, ◌∙◌, ◌⊎◌, inl, inr, Option, none, some, List, [], ◌∷◌, leb,
  if◌then◌else◌, length, All, All-map, ℕ_discrete, arith, Bool-cases,
}
use assets_system.Capacity.{
  init, advance, serve, admit, schedule_arrival, arrive, complete, serve_id, release, depart,
  handle, round, loop, Event, Config, Simulation, sum, Pops, wait_times, system_times,
  service_times,
}
use assets_system.Capacity.Counts.{Conserves, Bounded}
use assets_system.Capacity.Conservation.{loop-Conserves}
use assets_system.Capacity.Termination.{loop-init-Ends}
use assets_system.Capacity.Times.{InOrder, total, loop-InOrder}

-- the earlier of an event and the first of the others
abbrev earlier : Event → Option (Event × List Event) → Option (Event × List Event)
earlier e none = some (e, [])
earlier e (some (f, rest)) = if leb e.time f.time then some (e, f ∷ rest) else some (f, e ∷ rest)

abbrev pop : List Event → Option (Event × List Event)
pop [] = none
pop (e ∷ events) = earlier e (pop events)

-- What `Pops` asks of the event and the others.
abbrev IsPopOf : List Event → Event × List Event → Type 0
IsPopOf events (e, rest) =
    ((f : Event → ℕ) → sum f events ≡ f e + sum f rest) × All (λ x. e.time ≤ x.time) rest

pop-cons :
    (e : Event) (events : List Event)
    → (p : Event × List Event) × (pop (e ∷ events) ≡ some p) × IsPopOf (e ∷ events) p
pop-cons e [] = ((e, []), refl, (λ f. refl, tt))
pop-cons e (d ∷ events) =
    let ((m, rest), k, (sums, first)) = pop-cons d events in
    elim (Bool-cases (leb e.time m.time)) [
      | inl l ↦ (
        (e, m ∷ rest),
        rw (k, l) refl,
        (
          λ f. omega (arith, sums f),
          (ground (arith, l), All-map _ _ rest (λ x q. ground (arith, l, q)) first),
        ),
      )
      | inr l ↦
          ((m, e ∷ rest), rw (k, l) refl, (λ f. omega (arith, sums f), (ground (arith, l), first)))
    ]

pop-IsPopOf :
    (events : List Event) (e : Event) (rest : List Event)
    → pop events ≡ some (e, rest)
    → IsPopOf events (e, rest)
pop-IsPopOf [] e rest h = cc
pop-IsPopOf (d ∷ events) e rest h =
    let (p, k, q) = pop-cons d events in
    subst (IsPopOf (d ∷ events)) (some-injective _ _ (sym k ∙ h)) q

pop-Pops : Pops pop
pop-Pops = (refl, λ e events. let (p, k, q) = pop-cons e events in (p, k), pop-IsPopOf)

-- The rates stand for the times that are drawn.
abbrev draw : ℕ → ℕ → ℕ
draw rate n = rate

abbrev config : Config
config = record { lambda_rate = 1; mu_rate = 3; servers = 1; duration = 6; max_queue_size = 1 }

program : Unit {0}
unfolding Dict.get Dict.set Dict.remove init advance serve admit schedule_arrival arrive complete
    serve_id release depart handle round loop ℕ_discrete
program = tt

abbrev final : Simulation
final = elim (loop draw pop config 15 (init draw pop config)) [
  | none ↦ init draw pop config
  | some s ↦ s
]

-- Of five jobs two are completed, one is served and two are dropped.
final_counts :
    final.next_job_id
      ∷ length final.completed_jobs
      ∷ final.busy_servers
      ∷ length final.queue
      ∷ final.dropped_jobs
      ∷ []
    ≡ 5 ∷ 2 ∷ 1 ∷ 0 ∷ 2 ∷ []
unfolding program
final_counts = refl

loop-Conserves_example : Conserves final × Bounded config final
unfolding program
loop-Conserves_example = loop-Conserves draw pop config pop-Pops 15 final refl

loop-InOrder_example :
    All InOrder final.completed_jobs
    × (total (system_times final.completed_jobs)
        ≡ total (wait_times final.completed_jobs) + total (service_times final.completed_jobs))
unfolding program
loop-InOrder_example = loop-InOrder draw pop config pop-Pops 15 final refl

-- The third draw is 0 ticks.
abbrev stutter : ℕ → ℕ → ℕ
stutter rate n = if n == 2 then 0 else rate

loop-init-Ends_example :
    (t : Simulation) × (loop stutter pop config 17 (init stutter pop config) ≡ some t)
    × ((6 ≤ t.current_time) ⊎ (t.events ≡ []))
loop-init-Ends_example = loop-init-Ends stutter pop config 1 (omega arith) pop-Pops
