-- ===== src/PodSim.antt =====
-- pod_sim.py: the phases of a pod and its probes. The clock is an argument, in ticks of any length:
-- `run` moves it by `step` at each `time.sleep(0.5)`.
use mathlib.Core.Path.{subst}
use assets_system.Prelude.{
  ℕ, zero, suc, ◌+◌, ◌*◌, ◌-◌, ◌≤◌, ◌≡◌, ◌∙◌, sym, refl, ◌⊎◌, inl, inr, Bool, true, false, ◌&&◌,
  Option, none, some, leb, if◌then◌else◌, ◌==◌, arith, Bool-cases,
}
mod Tests

pub data Phase : Type 0 where
  pending running succeeded failed : Phase

pub record PodSimulator : Type 0 where
  pub phase : Phase
  pub startup_delay : ℕ
  pub healthy : Bool
  pub start_time : ℕ
  pub ready : Bool
  pub restarts : ℕ

unfoldable pub init : ℕ → ℕ → Bool → PodSimulator
init now startup_delay healthy = record {
  phase = pending;
  startup_delay = startup_delay;
  healthy = healthy;
  start_time = now;
  ready = false;
  restarts = 0;
}

unfoldable pub startup_probe : ℕ → PodSimulator → Bool
startup_probe now pod = leb pod.startup_delay (now - pod.start_time)

unfoldable pub is_running : Phase → Bool
is_running running = true
is_running pending = false
is_running succeeded = false
is_running failed = false

unfoldable pub readiness_probe : PodSimulator → Bool
unfolding is_running
readiness_probe pod = pod.healthy && is_running pod.phase

-- what follows where the liveness probe fails
unfoldable pub restart : ℕ → PodSimulator → PodSimulator
restart now pod =
    let dead = record pod { phase = failed; restarts = pod.restarts + 1 } in
    record dead { phase = pending; start_time = now; ready = false }

unfoldable pub tick_in : Phase → ℕ → PodSimulator → PodSimulator
unfolding startup_probe readiness_probe restart
tick_in pending now pod = if startup_probe now pod then record pod { phase = running } else pod
tick_in running now pod =
    if pod.healthy then record pod { ready = readiness_probe pod } else restart now pod
tick_in succeeded now pod = pod
tick_in failed now pod = pod

unfoldable pub tick : ℕ → PodSimulator → PodSimulator
unfolding tick_in
tick now pod = tick_in pod.phase now pod

-- `fail_at_tick is not None and i == fail_at_tick`
unfoldable pub fails_at : Option ℕ → ℕ → Bool
fails_at none i = false
fails_at (some t) i = i == t

-- the loop of `run`: the ticks that are left, and the number of the next one
unfoldable pub run : ℕ → ℕ → ℕ → ℕ → Option ℕ → PodSimulator → PodSimulator
unfolding tick fails_at
run zero i now step fail_at_tick pod = pod
run (suc ticks) i now step fail_at_tick pod =
    let pod' = if fails_at fail_at_tick i then record pod { healthy = false } else pod in
    run ticks (i + 1) (now + step) step fail_at_tick (tick now pod')

-- A pod is pending or running between ticks, and is ready only while it runs.
pub record IsValid (pod : PodSimulator) : Type 0 where
  pub alive : (pod.phase ≡ pending) ⊎ (pod.phase ≡ running)
  pub ready_runs : pod.ready ≡ true → pod.phase ≡ running

tick_in-IsValid :
    (phase : Phase) (now : ℕ) (pod : PodSimulator)
    → pod.phase ≡ phase
    → IsValid pod
    → IsValid (tick_in phase now pod)
unfolding tick_in restart
tick_in-IsValid pending now pod e h = elim (Bool-cases (startup_probe now pod)) [
  | inl b ↦ rw b (record { alive = inr refl; ready_runs = λ r. refl })
  | inr b ↦ rw b h
]
tick_in-IsValid running now pod e h = elim (Bool-cases pod.healthy) [
  | inl b ↦ rw b (record { alive = inr e; ready_runs = λ r. e })
  | inr b ↦ rw b (record { alive = inl refl; ready_runs = λ r. cc })
]
tick_in-IsValid succeeded now pod e h = h
tick_in-IsValid failed now pod e h = h

run-IsValid :
    (ticks i now step : ℕ) (fail_at_tick : Option ℕ) (pod : PodSimulator)
    → IsValid pod
    → IsValid (run ticks i now step fail_at_tick pod)
unfolding run tick
run-IsValid zero i now step fail_at_tick pod h = h
run-IsValid (suc ticks) i now step fail_at_tick pod h =
    elim (Bool-cases (fails_at fail_at_tick i)) [
      | inl b ↦
          let pod' = record pod { healthy = false } in
          rw (b, run)
            (run-IsValid ticks (i + 1) (now + step) step fail_at_tick (tick now pod') (
              tick_in-IsValid pod.phase now pod' refl
                (record { alive = h.alive; ready_runs = h.ready_runs })))
      | inr b ↦
          rw (b, run)
            (run-IsValid ticks (i + 1) (now + step) step fail_at_tick (tick now pod)
              (tick_in-IsValid pod.phase now pod refl h))
    ]

-- Whatever ticks a new pod gets and whenever its health ends, it is pending or running afterwards,
-- and ready only if it runs.
run-init-IsValid :
    (ticks now step startup_delay : ℕ) (healthy : Bool) (fail_at_tick : Option ℕ)
    → IsValid (run ticks 0 now step fail_at_tick (init now startup_delay healthy))
unfolding init
run-init-IsValid ticks now step startup_delay healthy fail_at_tick =
    run-IsValid ticks 0 now step fail_at_tick (init now startup_delay healthy)
      (record { alive = inl refl; ready_runs = λ r. cc })

-- A pod that serves.
abbrev pub Serves : PodSimulator → Type 0
Serves pod = (pod.phase ≡ running) × (pod.ready ≡ true) × (pod.restarts ≡ 0)

tick_running :
    (now : ℕ) (pod : PodSimulator)
    → pod.healthy ≡ true
    → pod.phase ≡ running
    → tick now pod ≡ record pod { ready = true }
unfolding tick tick_in readiness_probe is_running
tick_running now pod h p = rw (p, h, tick)

tick_up :
    (now : ℕ) (pod : PodSimulator)
    → pod.phase ≡ pending
    → startup_probe now pod ≡ true
    → tick now pod ≡ record pod { phase = running }
unfolding tick tick_in
tick_up now pod p up = rw (p, up, tick, tick_in)

tick_down :
    (now : ℕ) (pod : PodSimulator)
    → pod.phase ≡ pending
    → startup_probe now pod ≡ false
    → tick now pod ≡ pod
unfolding tick tick_in
tick_down now pod p down = rw (p, down, tick, tick_in)

run-Serves :
    (ticks i now step : ℕ) (pod : PodSimulator)
    → pod.healthy ≡ true
    → pod.phase ≡ running
    → pod.restarts ≡ 0
    → Serves (run (suc ticks) i now step none pod)
unfolding run fails_at
run-Serves zero i now step pod h p r = rw (tick_running now pod h p) (p, refl, r)
run-Serves (suc ticks) i now step pod h p r =
    subst (λ x. Serves (run (suc ticks) (i + 1) (now + step) step none x))
      (sym (tick_running now pod h p))
      (run-Serves ticks (i + 1) (now + step) step (record pod { ready = true }) h p r)

-- A pending pod that stays healthy serves after two ticks more than it takes the clock to reach the
-- end of its startup delay, without a restart.
pub run_starts :
    (k i now step : ℕ) (pod : PodSimulator)
    → pod.healthy ≡ true
    → pod.phase ≡ pending
    → pod.restarts ≡ 0
    → pod.start_time ≤ now
    → pod.start_time + pod.startup_delay ≤ now + k * step
    → Serves (run (suc (suc k)) i now step none pod)
unfolding run fails_at
run_starts zero i now step pod h p r s e =
    let up : startup_probe now pod ≡ true = unfold startup_probe in ground (arith, e) in
    subst (λ x. Serves (run (suc zero) (i + 1) (now + step) step none x))
      (sym (tick_up now pod p up))
      (run-Serves zero (i + 1) (now + step) step (record pod { phase = running }) h refl r)
run_starts (suc k) i now step pod h p r s e = elim (Bool-cases (startup_probe now pod)) [
  | inl up ↦
      subst (λ x. Serves (run (suc (suc k)) (i + 1) (now + step) step none x))
        (sym (tick_up now pod p up))
        (run-Serves (suc k) (i + 1) (now + step) step (record pod { phase = running }) h refl r)
  | inr down ↦
      subst (λ x. Serves (run (suc (suc k)) (i + 1) (now + step) step none x))
        (sym (tick_down now pod p down))
        (run_starts k (i + 1) (now + step) step pod h p r (omega (arith, s)) (omega (arith, e)))
]
