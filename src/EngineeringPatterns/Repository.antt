-- ===== src/EngineeringPatterns/Repository.antt =====
-- repository.py: the interface `Repository` and its implementation in memory.
use assets_system.Prelude.Dict
use assets_system.Prelude.Dict.{Dict}
use Prim.Native.String.{String}
use assets_system.Prelude.{ℕ, ◌≡◌, ite, Option, none, some, List, map, ℕ_discrete}

-- The operations on a store `S` of entities `T` that are keyed by `K`.
pub record Repository (S T K : Type 0) : Type 0 where
  pub get : K → S → Option T
  pub add : T → S → S
  pub remove : K → S → S
  pub list : S → List T

-- What clients may rely on, where an entity has a key: reads see the last change of their key alone.
pub record IsRepository {S T K : Type 0} (dec : Discrete K) (key : T → K) (r : Repository S T K)
    : Type 0 where
  pub get-add :
      (entity : T) (id : K) (s : S)
      → r.get id (r.add entity s) ≡ ite (dec (key entity) id) (some entity) (r.get id s)
  pub get-remove :
      (id other : K) (s : S) → r.get other (r.remove id s) ≡ ite (dec id other) none (r.get other s)

pub record User : Type 0 where
  pub id : ℕ
  pub name : String

abbrev in_memory_user_repository : Repository (Dict ℕ User) User ℕ
in_memory_user_repository = record {
  get = λ id users. Dict.get ℕ_discrete id users;
  add = λ entity users. Dict.set ℕ_discrete entity.id entity users;
  remove = λ id users. Dict.remove ℕ_discrete id users;
  list = λ users. map (λ p. p.1) users;
}

-- The repository in memory is one: a read sees the last change of its key and no other.
in_memory_user_repository-IsRepository :
    IsRepository ℕ_discrete (λ u. u.id) in_memory_user_repository
in_memory_user_repository-IsRepository = record {
  get-add = λ entity id users. Dict.get-set ℕ_discrete entity.id id entity users;
  get-remove = λ id other users. Dict.get-remove ℕ_discrete id other users;
}
