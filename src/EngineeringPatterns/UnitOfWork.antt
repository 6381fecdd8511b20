-- ===== src/EngineeringPatterns/UnitOfWork.antt =====
-- unit_of_work.py: changes to the users that are kept pending until a commit. A pending action is
-- one of the two closures that the code makes. Names are of any type.
use mathlib.Core.List.{append-nil, append_assoc}
use mathlib.Core.Option
use assets_system.Prelude.Dict
use assets_system.Prelude.Dict.{Dict}
use assets_system.Prelude.{
  ℕ, ◌≡◌, refl, ap, sym, ◌∙◌, Bool, true, false, Option, none, some, List, [], ◌∷◌, ◌++◌, map,
  if◌then◌else◌, ite, arith, Option-cases, ℕ_discrete, inl, inr,
}

pub record User (N : Type 0) : Type 0 where
  pub id : ℕ
  pub name : N

pub data Action (N : Type 0) : Type 0 where
  add : User N → Action N
  remove : ℕ → Action N

pub record UnitOfWork (N : Type 0) : Type 0 where
  pub users : Dict ℕ (User N)
  pub actions : List (Action N)

module _ {N : Type 0} where
  unfoldable pub init : UnitOfWork N
  init = record { users = []; actions = [] }

  unfoldable pub register_add : User N → UnitOfWork N → UnitOfWork N
  register_add user u = record u { actions = u.actions ++ add user ∷ [] }

  unfoldable pub register_remove : ℕ → UnitOfWork N → UnitOfWork N
  register_remove user_id u = record u { actions = u.actions ++ remove user_id ∷ [] }

  -- the registrations of a body, in order
  unfoldable pub register : List (Action N) → UnitOfWork N → UnitOfWork N
  unfolding register_add register_remove
  register [] u = u
  register (add user ∷ rest) u = register rest (register_add user u)
  register (remove user_id ∷ rest) u = register rest (register_remove user_id u)

  -- `action()`
  unfoldable pub act : Action N → Dict ℕ (User N) → Dict ℕ (User N)
  act (add user) users = Dict.set ℕ_discrete user.id user users
  act (remove user_id) users = Dict.remove ℕ_discrete user_id users

  -- the loop of `commit`
  unfoldable pub act_all : List (Action N) → Dict ℕ (User N) → Dict ℕ (User N)
  unfolding act
  act_all [] users = users
  act_all (a ∷ actions) users = act_all actions (act a users)

  unfoldable pub commit : UnitOfWork N → UnitOfWork N
  unfolding act_all
  commit u = record { users = act_all u.actions u.users; actions = [] }

  unfoldable pub rollback : UnitOfWork N → UnitOfWork N
  rollback u = record u { actions = [] }

  unfoldable pub get_user : ℕ → UnitOfWork N → Option (User N)
  get_user user_id u = Dict.get ℕ_discrete user_id u.users

  unfoldable pub list_users : UnitOfWork N → List (User N)
  list_users u = map (λ p. p.1) u.users

  -- `uow_context` around a body that makes some registrations and then ends or raises
  unfoldable pub uow_context : List (Action N) → Bool → UnitOfWork N
  unfolding init commit rollback register
  uow_context registered raises =
      let u = register registered init in if raises then rollback u else commit u

  -- What an action makes of a user, where it is about the user.
  abbrev pub effect : ℕ → Action N → Option (Option (User N))
  effect user_id (add user) = ite (ℕ_discrete user.id user_id) (some (some user)) none
  effect user_id (remove id) = ite (ℕ_discrete id user_id) (some none) none

  -- What the last action about a user makes of it.
  abbrev pub last_effect : ℕ → List (Action N) → Option (Option (User N))
  last_effect user_id [] = none
  last_effect user_id (a ∷ actions) = elim (last_effect user_id actions) [
    | none ↦ effect user_id a
    | some e ↦ some e
  ]

  get-act :
      (user_id : ℕ) (a : Action N) (users : Dict ℕ (User N))
      → Dict.get ℕ_discrete user_id (act a users)
        ≡ Option.get_or (effect user_id a) (Dict.get ℕ_discrete user_id users)
  unfolding act
  get-act user_id (add user) users =
      ground (arith, Dict.get-set ℕ_discrete user.id user_id user users)
  get-act user_id (remove id) users = ground (arith, Dict.get-remove ℕ_discrete id user_id users)

  get-act_all :
      (user_id : ℕ) (actions : List (Action N)) (users : Dict ℕ (User N))
      → Dict.get ℕ_discrete user_id (act_all actions users)
        ≡ Option.get_or (last_effect user_id actions) (Dict.get ℕ_discrete user_id users)
  unfolding act_all
  get-act_all user_id [] users = refl
  get-act_all user_id (a ∷ actions) users =
      let rest = get-act_all user_id actions (act a users) in
      elim (Option-cases (last_effect user_id actions)) [
        | inl e ↦ rest ∙ rw e (get-act user_id a users)
        | inr (x, e) ↦ rest ∙ rw e
      ]

  -- A commit does to each user what the last pending action about the user says, and leaves the
  -- others; a rollback leaves all, and neither leaves an action pending.
  get_user-commit :
      (u : UnitOfWork N) (user_id : ℕ)
      → (get_user user_id (commit u)
          ≡ Option.get_or (last_effect user_id u.actions) (get_user user_id u))
        × ((commit u).actions ≡ [])
        × (get_user user_id (rollback u) ≡ get_user user_id u)
        × ((rollback u).actions ≡ [])
  unfolding get_user commit rollback
  get_user-commit u user_id = (get-act_all user_id u.actions u.users, refl, refl, refl)

  actions-register :
      (registered : List (Action N)) (u : UnitOfWork N)
      → register registered u ≡ record u { actions = u.actions ++ registered }
  unfolding register register_add register_remove
  actions-register [] u = ap (λ x. record u { actions = x }) (sym (append-nil u.actions))
  actions-register (add user ∷ rest) u =
      actions-register rest (register_add user u)
      ∙ ap (λ x. record u { actions = x }) (append_assoc u.actions (add user ∷ []) rest)
  actions-register (remove user_id ∷ rest) u =
      actions-register rest (register_remove user_id u)
      ∙ ap (λ x. record u { actions = x }) (append_assoc u.actions (remove user_id ∷ []) rest)

  -- Where the body raises, the context leaves no user; where it ends, a user is what the last
  -- registration about it says.
  pub get_user-uow_context :
      (registered : List (Action N)) (user_id : ℕ)
      → (get_user user_id (uow_context registered true) ≡ none)
        × (get_user user_id (uow_context registered false)
            ≡ Option.get_or (last_effect user_id registered) none)
  unfolding uow_context init get_user rollback Dict.get
  get_user-uow_context registered user_id = (
    rw (actions-register registered init) refl,
    rw (actions-register registered init)
        (get_user-commit (record { users = []; actions = registered }) user_id).0,
  )
