-- ===== src/EngineeringPatterns/EventBus.antt =====
-- event_bus.py: EventBus. A handler is known by an id, which stands for the identity of the function,
-- and is a function of the payload that returns or raises. A `defaultdict` makes an empty list for a
-- type that it does not have.
use assets_system.Prelude.Dict
use assets_system.Prelude.Dict.{Dict}
use assets_system.Prelude.{
  ℕ, ◌+◌, ◌≡◌, ◌≢◌, refl, sym, ap, ◌∙◌, ite, if_pos, if_neg, inl, inr, Bool, true, false, Option,
  none, some, List, [], ◌∷◌, ◌++◌, map, if◌then◌else◌, ◌==◌, All, ℕ_discrete, arith, Bool-cases,
  Option-cases,
}
use assets_system.EngineeringPatterns.RetryPolicy.{Result}
mod Tests

pub record Handler (A R E : Type 0) : Type 0 where
  pub id : ℕ
  pub call : A → Result R E

abbrev pub EventBus : Type 0 → Type 0 → Type 0 → Type 0 → Type 0
EventBus K A R E = Dict K (List (Handler A R E))

module _ {A R E : Type 0} where
  unfoldable pub handlers_or_empty : Option (List (Handler A R E)) → List (Handler A R E)
  handlers_or_empty none = []
  handlers_or_empty (some handlers) = handlers

  -- `list.remove`; `none` is the ValueError
  unfoldable pub remove : ℕ → List (Handler A R E) → Option (List (Handler A R E))
  remove id [] = none
  remove id (h ∷ handlers) =
      let rest = remove id handlers in
      if h.id == id
      then some handlers
      else elim rest [ none ↦ none | some others ↦ some (h ∷ others) ]

  -- the loop over the handlers, whose exceptions are results
  unfoldable pub call_all : A → List (Handler A R E) → List (Result R E)
  call_all payload [] = []
  call_all payload (h ∷ handlers) = h.call payload ∷ call_all payload handlers

module _ {K A R E : Type 0} (dec : Discrete K) where
  unfoldable pub subscribe : K → Handler A R E → EventBus K A R E → EventBus K A R E
  unfolding handlers_or_empty
  subscribe event_type handler bus =
      Dict.set dec event_type (handlers_or_empty (Dict.get dec event_type bus) ++ handler ∷ []) bus

  -- the function that `subscribe` returns
  unfoldable pub unsubscribe : K → Handler A R E → EventBus K A R E → Option (EventBus K A R E)
  unfolding remove handlers_or_empty
  unsubscribe event_type handler bus =
      elim (remove handler.id (handlers_or_empty (Dict.get dec event_type bus))) [
        | none ↦ none
        | some handlers ↦ some (Dict.set dec event_type handlers bus)
      ]

  unfoldable pub publish : K → A → EventBus K A R E → List (Result R E)
  unfolding call_all handlers_or_empty
  publish event_type payload bus =
      call_all payload (handlers_or_empty (Dict.get dec event_type bus))

the_same : (n : ℕ) → (n == n) ≡ true
the_same n = ground arith

differs : (n m : ℕ) → n ≢ m → (n == m) ≡ false
differs n m h = ground (arith, h)

module _ {A R E : Type 0} where
  call_all-append :
      (payload : A) (handlers : List (Handler A R E)) (h : Handler A R E)
      → call_all payload (handlers ++ h ∷ []) ≡ call_all payload handlers ++ h.call payload ∷ []
  unfolding call_all
  call_all-append payload [] h = refl
  call_all-append payload (x ∷ handlers) h =
      ap (λ xs. x.call payload ∷ xs) (call_all-append payload handlers h)

  -- The function is not registered.
  abbrev pub IsNew : ℕ → List (Handler A R E) → Type 0
  IsNew id handlers = All (λ h. h.id ≢ id) handlers

  remove-append :
      (handler : Handler A R E) (handlers : List (Handler A R E))
      → IsNew handler.id handlers
      → remove handler.id (handlers ++ handler ∷ []) ≡ some handlers
  unfolding remove
  remove-append handler [] n = rw (the_same handler.id, remove) refl
  remove-append handler (h ∷ handlers) n =
      rw (differs h.id handler.id n.0, remove-append handler handlers n.1, remove) refl

module _ {K A R E : Type 0} (dec : Discrete K) where
  -- A new handler answers a publication of its type after the older ones, whether they raise or not,
  -- and no publication of another type.
  pub publish-subscribe :
      (event_type other : K) (handler : Handler A R E) (payload : A) (bus : EventBus K A R E)
      → publish dec other payload (subscribe dec event_type handler bus)
        ≡ ite
            (dec event_type other)
            (publish dec event_type payload bus ++ handler.call payload ∷ [])
            (publish dec other payload bus)
  unfolding publish subscribe
  publish-subscribe event_type other handler payload bus =
      let handlers = handlers_or_empty (Dict.get dec event_type bus) in
      let added = handlers ++ handler ∷ [] in
      let found = Dict.get-set dec event_type other added bus in
      let old = publish dec other payload bus in
      let new = publish dec event_type payload bus ++ handler.call payload ∷ [] in
      elim (dec event_type other) [
        | yes p ↦
            ap (λ o. call_all payload (handlers_or_empty o))
              (found ∙ if_pos (dec event_type other) p (some added) (Dict.get dec other bus))
            ∙ call_all-append payload handlers handler
            ∙ sym (if_pos (dec event_type other) p new old)
        | no p ↦
            ap (λ o. call_all payload (handlers_or_empty o))
              (found ∙ if_neg (dec event_type other) p (some added) (Dict.get dec other bus))
            ∙ sym (if_neg (dec event_type other) p new old)
      ]

  -- To subscribe a function that is not registered and then to unsubscribe it changes no publication.
  publish-unsubscribe :
      (event_type : K) (handler : Handler A R E) (bus : EventBus K A R E)
      → IsNew handler.id (handlers_or_empty (Dict.get dec event_type bus))
      → (after : EventBus K A R E) × (unsubscribe dec event_type handler
            (subscribe dec event_type handler bus)
          ≡ some after)
        × ((other : K) (payload : A)
            → publish dec other payload after ≡ publish dec other payload bus)
  unfolding publish subscribe unsubscribe handlers_or_empty
  publish-unsubscribe event_type handler bus h =
      let handlers = handlers_or_empty (Dict.get dec event_type bus) in
      let added = handlers ++ handler ∷ [] in
      let sub = Dict.set dec event_type added bus in
      (
        Dict.set dec event_type handlers sub,
        rw
            (
              Dict.get-set_self dec event_type added bus,
              remove-append handler handlers h,
              unsubscribe,
            )
            refl,
        λ other payload. ap (call_all payload) (elim (dec event_type other) [
          | yes p ↦
              ap handlers_or_empty (
                Dict.get-set dec event_type other handlers sub
                ∙ if_pos (dec event_type other) p (some handlers) (Dict.get dec other sub))
              ∙ ap (λ k. handlers_or_empty (Dict.get dec k bus)) p
          | no p ↦ ap handlers_or_empty (
              Dict.get-set_ne dec event_type other handlers sub p
              ∙ Dict.get-set_ne dec event_type other added bus p)
        ]),
      )
