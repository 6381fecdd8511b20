-- ===== src/EngineeringPatterns/EventBus/Tests.antt =====
-- Publications on a bus (event_bus.py) with a handler that raises, and the theorems at them.
use assets_system.Prelude.Dict
use assets_system.Prelude.{ℕ, ◌+◌, ◌≡◌, refl, [], ◌∷◌, ℕ_discrete}
use assets_system.EngineeringPatterns.RetryPolicy.{value, error}
use assets_system.EngineeringPatterns.EventBus.{
  Handler, EventBus, handlers_or_empty, remove, call_all, subscribe, unsubscribe, publish,
  publish-subscribe,
}

program : Unit {0}
unfolding handlers_or_empty remove call_all subscribe unsubscribe publish Dict.get Dict.set
    ℕ_discrete
program = tt

abbrev failing : Handler ℕ ℕ ℕ
failing = record { id = 1; call = λ x. error x }

abbrev adding : Handler ℕ ℕ ℕ
adding = record { id = 2; call = λ x. value (x + 1) }

abbrev bus : EventBus ℕ ℕ ℕ ℕ
bus = (7, failing ∷ []) ∷ []

publish_both : publish ℕ_discrete 7 5 (subscribe ℕ_discrete 7 adding bus) ≡ error 5 ∷ value 6 ∷ []
unfolding program
publish_both = refl

publish-subscribe_example :
    publish ℕ_discrete 7 5 (subscribe ℕ_discrete 7 adding bus) ≡ error 5 ∷ value 6 ∷ []
unfolding program
publish-subscribe_example = publish-subscribe ℕ_discrete 7 7 adding 5 bus
