-- ===== src/LatencyBudget.antt =====
-- systems-engineering/performance-engineering/impl/latency_budget_lab/budget_calculator.py: the
-- scenarios and the totals of a report. Times are whole milliseconds, as in the built-in scenarios,
-- where the sums of floats are exact; of the percentages only the divisions by 0 are modelled.
pub mod Groups
mod Tests
use Prim.Native.String.{String}
use assets_system.Prelude.{
  ℕ, ◌+◌, ◌-◌, ◌*◌, Bool, true, false, ◌&&◌, not, ◌==◌, Option, none, some, List, [], ◌∷◌, ◌++◌,
  ltb, if◌then◌else◌,
}

pub record Component : Type 0 where
  pub name : String
  pub p50_ms : ℕ
  pub p99_ms : ℕ
  pub parallel : Bool
  pub notes : String

pub record Scenario : Type 0 where
  pub name : String
  pub sla_p99_ms : ℕ
  pub components : List Component
  pub description : String

-- An entry of `component_results`.
pub record ComponentResult : Type 0 where
  pub name : String
  pub p50_ms : ℕ
  pub p99_ms : ℕ
  pub added_p50_ms : ℕ
  pub added_p99_ms : ℕ
  pub parallel : Bool

-- The variables of the loop.
pub record Budget : Type 0 where
  pub total_p50 : ℕ
  pub total_p99 : ℕ
  pub component_results : List ComponentResult

-- `component_results[-1]`, which the code reads only after the first round
abbrev pub last : List ComponentResult → Option ComponentResult
last [] = none
last (r ∷ []) = some r
last (r ∷ s ∷ rest) = last (s ∷ rest)

abbrev pub serial_result : Component → ComponentResult
serial_result comp = record {
  name = comp.name;
  p50_ms = comp.p50_ms;
  p99_ms = comp.p99_ms;
  added_p50_ms = comp.p50_ms;
  added_p99_ms = comp.p99_ms;
  parallel = false;
}

unfoldable pub add_serial : Budget → Component → Budget
add_serial b comp = record {
  total_p50 = b.total_p50 + comp.p50_ms;
  total_p99 = b.total_p99 + comp.p99_ms;
  component_results = b.component_results ++ serial_result comp ∷ [];
}

-- `max(0, x - y)` is the difference on natural numbers
unfoldable pub add_parallel : ComponentResult → Budget → Component → Budget
add_parallel prev b comp = record {
  total_p50 = b.total_p50 + (comp.p50_ms - prev.p50_ms);
  total_p99 = b.total_p99 + (comp.p99_ms - prev.p99_ms);
  component_results =
      b.component_results
      ++ record {
        name = comp.name;
        p50_ms = comp.p50_ms;
        p99_ms = comp.p99_ms;
        added_p50_ms = comp.p50_ms - prev.p50_ms;
        added_p99_ms = comp.p99_ms - prev.p99_ms;
        parallel = true;
      }
        ∷ [];
}

-- a round of the loop
unfoldable pub add_component : Budget → Component → Budget
unfolding add_serial add_parallel
add_component b comp = elim (last b.component_results) [
  | none ↦ add_serial b comp
  | some prev ↦ if comp.parallel then add_parallel prev b comp else add_serial b comp
]

unfoldable pub add_components : Budget → List Component → Budget
unfolding add_component
add_components b [] = b
add_components b (comp ∷ rest) = add_components (add_component b comp) rest

-- the loop over the components
unfoldable pub totals : Scenario → Budget
unfolding add_components
totals scenario =
    add_components (record { total_p50 = 0; total_p99 = 0; component_results = [] })
      scenario.components

unfoldable pub is_empty : {A : Type 0} → List A → Bool
is_empty [] = true
is_empty (x ∷ xs) = false

-- The report, or `none` for a ZeroDivisionError: the headroom is divided by the SLA, and each
-- component's improvement by the total.
unfoldable pub calculate_budget : Scenario → Option Budget
unfolding totals is_empty
calculate_budget scenario =
    let b = totals scenario in
    if scenario.sla_p99_ms == 0
    then none
    else if (b.total_p99 == 0) && not (is_empty b.component_results)
    then none
    else some b

-- The warning of `print_report` on the headroom `sla_p99_ms - total_p99`.
pub data Warning : Type 0 where
  exceeds tight fits : Warning

unfoldable pub warning : Scenario → Budget → Warning
warning scenario b =
    if ltb scenario.sla_p99_ms b.total_p99
    then exceeds
    else if ltb (10 * (scenario.sla_p99_ms - b.total_p99)) scenario.sla_p99_ms
    then tight
    else fits

abbrev serial : String → ℕ → ℕ → Component
serial name p50 p99 = record {
  name = name;
  p50_ms = p50;
  p99_ms = p99;
  parallel = false;
  notes = "";
}

-- `BUILTIN_SCENARIOS`
abbrev pub web_api : Scenario
web_api = record {
  name = "典型 Web API 请求";
  sla_p99_ms = 200;
  description = "客户端 -> CDN -> LB -> Nginx -> App -> Redis -> MySQL";
  components =
      serial "DNS" 5 20
      ∷ serial "TCP+TLS" 10 30
      ∷ serial "CDN" 5 15
      ∷ serial "LB" 1 3
      ∷ serial "Nginx" 2 5
      ∷ serial "App Logic" 20 50
      ∷ serial "Redis" 2 5
      ∷ serial "MySQL" 5 30
      ∷ [];
}

abbrev pub microservice : Scenario
microservice = record {
  name = "微服务链式调用";
  sla_p99_ms = 500;
  description = "Gateway -> Auth -> User -> Order -> Payment";
  components =
      serial "Gateway" 2 5
      ∷ serial "Auth" 10 30
      ∷ serial "User" 15 40
      ∷ serial "Order" 20 60
      ∷ serial "Payment" 50 150
      ∷ [];
}

abbrev pub ai_inference : Scenario
ai_inference = record {
  name = "AI 推理服务";
  sla_p99_ms = 2000;
  description = "Client -> API Gateway -> Queue -> GPU Worker -> Post-process";
  components =
      serial "DNS+TLS" 10 30
      ∷ serial "API Gateway" 5 15
      ∷ serial "Queue Wait" 50 200
      ∷ serial "GPU Inference" 300 800
      ∷ serial "Post-process" 20 50
      ∷ [];
}
