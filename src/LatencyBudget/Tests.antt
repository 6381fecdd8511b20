-- ===== src/LatencyBudget/Tests.antt =====
-- The reports of the built-in scenarios of budget_calculator.py, and the theorems at scenarios.
use assets_system.Prelude.{ℕ, ◌≡◌, refl, Bool, true, false, none, some, [], ◌∷◌}
use assets_system.LatencyBudget.{
  Component, Scenario, add_serial, add_parallel, add_component, add_components, totals, is_empty,
  calculate_budget, fits, warning, web_api, microservice, ai_inference,
}
use assets_system.LatencyBudget.Groups.{calculate_budget-group_time}

program : Unit {0}
unfolding add_serial add_parallel add_component add_components totals is_empty calculate_budget
    warning
program = tt

web_api_total : (totals web_api).total_p99 ≡ 158
unfolding program
web_api_total = refl

microservice-warning : warning microservice (totals microservice) ≡ fits
unfolding program
microservice-warning = refl

ai_inference_total : (totals ai_inference).total_p50 ≡ 385
unfolding program
ai_inference_total = refl

abbrev timed : ℕ → Bool → Component
timed time parallel = record {
  name = "step";
  p50_ms = time;
  p99_ms = time;
  parallel = parallel;
  notes = "";
}

-- Components that take no time.
calculate_budget_zero :
    calculate_budget
      (record { name = "zero"; sla_p99_ms = 5; components = timed 0 false ∷ []; description = "" })
    ≡ none
unfolding program
calculate_budget_zero = refl

abbrev pairs : Scenario
pairs = record {
  name = "pairs";
  sla_p99_ms = 50;
  components = timed 10 false ∷ timed 15 true ∷ timed 30 false ∷ timed 20 true ∷ [];
  description = "";
}

calculate_budget-group_time_example :
    ((totals pairs).total_p50 ≡ 45)
    × ((totals pairs).total_p99 ≡ 45)
    × (calculate_budget pairs ≡ some (totals pairs))
unfolding is_empty
calculate_budget-group_time_example = calculate_budget-group_time pairs refl

abbrev triple : Scenario
triple = record pairs { components = timed 10 false ∷ timed 5 true ∷ timed 8 true ∷ [] }
