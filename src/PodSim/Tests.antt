-- ===== src/PodSim/Tests.antt =====
-- The runs of the demo of pod_sim.py, two ticks of the clock to a second, and the theorems at its pods.
use assets_system.Prelude.{◌≡◌, refl, true, false, none, some, arith}
use assets_system.PodSim.{
  pending, running, PodSimulator, init, startup_probe, is_running, readiness_probe, restart,
  tick_in, tick, fails_at, run, Serves, run_starts,
}

program : Unit {0}
unfolding init startup_probe is_running readiness_probe restart tick_in tick fails_at run
program = tt

normal_startup : (run 6 0 0 1 none (init 0 4 true)).phase ≡ running
unfolding program
normal_startup = refl

liveness_failure : (run 8 0 0 1 (some 4) (init 0 2 true)).restarts ≡ 2
unfolding program
liveness_failure = refl

abbrev pod : PodSimulator
pod = record {
  phase = pending;
  startup_delay = 4;
  healthy = true;
  start_time = 0;
  ready = false;
  restarts = 0;
}

run_starts_example : Serves (run 6 0 0 1 none pod)
run_starts_example = run_starts 4 0 0 1 pod refl refl refl (omega arith) (omega arith)
