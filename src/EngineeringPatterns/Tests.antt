-- ===== src/EngineeringPatterns/Tests.antt =====
-- The demo of unit_of_work.py, with names that are numbers, and the theorem at its registrations.
use assets_system.Prelude.Dict
use assets_system.Prelude.{ℕ, ◌≡◌, refl, true, false, none, List, [], ◌∷◌, ℕ_discrete}
use assets_system.EngineeringPatterns.UnitOfWork.{
  User, Action, add, remove, init, register_add, register_remove, register, act, act_all, commit,
  rollback, get_user, list_users, uow_context, get_user-uow_context,
}

program : Unit {0}
unfolding init register_add register_remove register act act_all commit rollback get_user list_users
    uow_context Dict.get Dict.set Dict.remove ℕ_discrete
program = tt

abbrev ada : User ℕ
ada = record { id = 1; name = 10 }

abbrev bob : User ℕ
bob = record { id = 2; name = 20 }

abbrev registered : List (Action ℕ)
registered = add ada ∷ add bob ∷ remove 1 ∷ []

committed : list_users (uow_context registered false) ≡ bob ∷ []
unfolding program
committed = refl

rolled_back : list_users (uow_context registered true) ≡ []
unfolding program
rolled_back = refl

get_user-uow_context_example :
    (get_user 1 (uow_context registered true) ≡ none)
    × (get_user 1 (uow_context registered false) ≡ none)
unfolding ℕ_discrete
get_user-uow_context_example = get_user-uow_context registered 1
