-- ===== src/Capacity/Rounds.antt =====
-- What a round of the loop of capacity_simulator.py takes out of the heap, and runs by induction.
use assets_system.Prelude.{
  ℕ, zero, suc, ◌≤◌, ◌⊎◌, ◌≡◌, refl, sym, ◌∙◌, inl, inr, Option, none, some, List, arith,
  Option-cases,
}
use mathlib.Core.Option.{some-injective}
use mathlib.Core.Path.{subst}
use assets_system.Capacity.{Event, Config, Simulation, advance, handle, round, loop}

module _ (expovariate : ℕ → ℕ → ℕ) (heappop : List Event → Option (Event × List Event))
    (config : Config) where
  pub round-some :
      (s t : Simulation)
      → round expovariate heappop config s ≡ some t
      → (p : Event × List Event) × (heappop s.events ≡ some p)
        × (t
            ≡ handle expovariate heappop config p.0.type p.0.job_id
                (advance expovariate heappop config p.0 p.1 s))
  unfolding round
  round-some s t h = elim (Option-cases (heappop s.events)) [
    | inl e ↦ ground (arith, h, e)
    | inr (p, e) ↦ (p, e, ground (arith, h, e))
  ]

  pub round-none :
      (s : Simulation)
      → round expovariate heappop config s ≡ none
      → (config.duration ≤ s.current_time) ⊎ (heappop s.events ≡ none)
  unfolding round
  round-none s h = elim (Option-cases (heappop s.events)) [
    | inl e ↦ inr e
    | inr (p, e) ↦ inl (ground (arith, h, e))
  ]

  -- What holds at first and is kept by the rounds holds at the end.
  pub loop_induction {κ} :
      (P : Simulation → Type κ)
      → ((s t : Simulation) → round expovariate heappop config s ≡ some t → P s → P t)
      → (fuel : ℕ) (s t : Simulation) → loop expovariate heappop config fuel s ≡ some t
      → P s
      → P t
  unfolding loop
  loop_induction P step zero s t h p = cc
  loop_induction P step (suc fuel) s t h p =
      elim (Option-cases (round expovariate heappop config s)) [
        | inl e ↦ subst P (some-injective _ _ (sym (rw (e, loop) refl) ∙ h)) p
        | inr (u, e) ↦ loop_induction P step fuel u t (sym (rw (e, loop) refl) ∙ h) (step s u e p)
      ]
