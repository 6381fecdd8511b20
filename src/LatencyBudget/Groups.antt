-- ===== src/LatencyBudget/Groups.antt =====
-- The totals of a report against the largest times of groups of parallel components
-- (budget_calculator.py, `calculate_budget`).
use mathlib.Core.Path.{subst}
use assets_system.Prelude.{
  ℕ, ◌+◌, ◌<◌, ◌≡◌, ◌∙◌, sym, ap, refl, inl, inr, max, Bool, true, false, ◌&&◌, ◌||◌, ◌==◌, not,
  none, some, List, [], ◌∷◌, ◌++◌, if◌then◌else◌, arith, Bool-cases, Option-cases,
}
use assets_system.LatencyBudget.{
  Component, Scenario, ComponentResult, Budget, serial_result, last, add_serial, add_parallel,
  add_component, add_components, is_empty, totals, calculate_budget,
}

last-append : (rs : List ComponentResult) (r : ComponentResult) → last (rs ++ r ∷ []) ≡ some r
last-append [] r = refl
last-append (s ∷ []) r = refl
last-append (s ∷ t ∷ rs) r = last-append (t ∷ rs) r

-- The time of the components where each group takes as long as its slowest: a group is a component
-- and the parallel one that may follow it.
abbrev pub group_time : (Component → ℕ) → List Component → ℕ
group_time f [] = 0
group_time f (c ∷ []) = f c
group_time f (c ∷ d ∷ rest) =
    let alone = group_time f (d ∷ rest) in
    let pair = group_time f rest in if d.parallel then max (f c) (f d) + pair else f c + alone

-- No group has more than two components.
abbrev pub is_paired : List Component → Bool
is_paired [] = true
is_paired (c ∷ []) = not c.parallel
is_paired (c ∷ d ∷ rest) =
    let alone = is_paired (d ∷ rest) in
    let pair = is_paired rest in not c.parallel && (if d.parallel then pair else alone)

add_component-serial :
    (b : Budget) (c : Component) → c.parallel ≡ false → add_component b c ≡ add_serial b c
unfolding add_component
add_component-serial b c h = elim (Option-cases (last b.component_results)) [
  | inl e ↦ rw (e, add_component)
  | inr (prev, e) ↦ rw (e, h, add_component)
]

add_component-parallel :
    (b : Budget) (prev : ComponentResult) (c : Component)
    → last b.component_results ≡ some prev
    → c.parallel ≡ true
    → add_component b c ≡ add_parallel prev b c
unfolding add_component
add_component-parallel b prev c e h = rw (e, h, add_component)

-- The totals of `t` are those of `b` and the times of the groups.
abbrev Adds : Budget → List Component → Budget → Type 0
Adds b cs t =
    (t.total_p50 ≡ b.total_p50 + group_time (λ c. c.p50_ms) cs)
    × (t.total_p99 ≡ b.total_p99 + group_time (λ c. c.p99_ms) cs)

add_components-Adds :
    (b : Budget) (cs : List Component) → is_paired cs ≡ true → Adds b cs (add_components b cs)
unfolding add_components add_serial add_parallel
add_components-Adds b [] h = (omega arith, omega arith)
add_components-Adds b (c ∷ []) h =
    subst (λ x. Adds b (c ∷ []) x) (sym (add_component-serial b c (ground (arith, h)))) (refl, refl)
add_components-Adds b (c ∷ d ∷ rest) h =
    let e = add_component-serial b c (ground (arith, h)) in
    elim (Bool-cases d.parallel) [
      | inl p ↦
          let f =
            add_component-parallel (add_serial b c) (serial_result c) d
              (last-append b.component_results (serial_result c)) p in
          let (x, y) =
            add_components-Adds (add_parallel (serial_result c) (add_serial b c) d) rest
              (ground (arith, h, p)) in
          subst (λ x. Adds b (c ∷ d ∷ rest) (add_components x rest))
            (sym (ap (λ z. add_component z d) e ∙ f)) (ground (arith, x, p), ground (arith, y, p))
      | inr p ↦
          let (x, y) = add_components-Adds (add_serial b c) (d ∷ rest) (ground (arith, h, p)) in
          subst (λ x. Adds b (c ∷ d ∷ rest) (add_components x (d ∷ rest))) (sym e)
            (ground (arith, x, p), ground (arith, y, p))
    ]

is_empty-append :
    (rs : List ComponentResult) (r : ComponentResult) → is_empty (rs ++ r ∷ []) ≡ false
unfolding is_empty
is_empty-append [] r = refl
is_empty-append (s ∷ rs) r = refl

is_empty-add_component :
    (b : Budget) (c : Component) → is_empty (add_component b c).component_results ≡ false
unfolding add_component add_serial add_parallel
is_empty-add_component b c = elim (Option-cases (last b.component_results)) [
  | inl e ↦ rw (e, add_component) (is_empty-append b.component_results _)
  | inr (prev, e) ↦ elim (Bool-cases c.parallel) [
    | inl p ↦ rw (e, p, add_component) (is_empty-append b.component_results _)
    | inr p ↦ rw (e, p, add_component) (is_empty-append b.component_results _)
  ]
]

is_empty-add_components :
    (b : Budget) (cs : List Component)
    → is_empty b.component_results ≡ false
    → is_empty (add_components b cs).component_results ≡ false
unfolding add_components
is_empty-add_components b [] h = h
is_empty-add_components b (c ∷ cs) h =
    is_empty-add_components (add_component b c) cs (is_empty-add_component b c)

-- the variables before the loop
abbrev no_time : Budget
no_time = record { total_p50 = 0; total_p99 = 0; component_results = [] }

is_empty-totals :
    (scenario : Scenario) (cs : List Component)
    → scenario.components ≡ cs
    → is_empty (totals scenario).component_results ≡ is_empty cs
unfolding totals
is_empty-totals scenario [] e = rw e (unfold add_components is_empty in refl)
is_empty-totals scenario (c ∷ cs) e = rw e (
    unfold add_components is_empty in
    is_empty-add_components (add_component no_time c) cs (is_empty-add_component no_time c))

-- Where a parallel component follows a serial one only, the totals are the sums over the groups of
-- the time of the slowest component, and the report is made of them unless it divides by 0: it does
-- where the SLA is 0, or where there are components and their total is 0.
pub calculate_budget-group_time :
    (scenario : Scenario)
    → is_paired scenario.components ≡ true
    → ((totals scenario).total_p50 ≡ group_time (λ c. c.p50_ms) scenario.components)
      × ((totals scenario).total_p99 ≡ group_time (λ c. c.p99_ms) scenario.components)
      × (calculate_budget scenario ≡ (
          if (scenario.sla_p99_ms == 0)
            || ((group_time (λ c. c.p99_ms) scenario.components == 0)
                && not (is_empty scenario.components))
          then none
          else some (totals scenario)))
unfolding totals calculate_budget
calculate_budget-group_time scenario h =
    let (x, y) = add_components-Adds no_time scenario.components h in
    let total : (totals scenario).total_p99 ≡ group_time (λ c. c.p99_ms) scenario.components =
      omega (arith, y) in
    (
      omega (arith, x),
      total,
      ground (arith, total, is_empty-totals scenario scenario.components refl),
    )

-- With two parallel components in a group the second is compared with the first alone: if the first
-- takes less than either other, the total is more than the slowest of the three.
calculate_budget_overcounts :
    (scenario : Scenario) (c d e : Component)
    → scenario.components ≡ c ∷ d ∷ e ∷ []
    → c.parallel ≡ false
    → d.parallel ≡ true
    → e.parallel ≡ true
    → d.p99_ms < c.p99_ms
    → d.p99_ms < e.p99_ms
    → max c.p99_ms (max d.p99_ms e.p99_ms) < (totals scenario).total_p99
unfolding totals add_components add_component add_serial add_parallel
calculate_budget_overcounts scenario c d e h p q r l m = rw (h, q, r) (omega (arith, l, m))
