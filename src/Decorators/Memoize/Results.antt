-- ===== src/Decorators/Memoize/Results.antt =====
-- The results of memoize.py for hashable arguments.
use mathlib.Core.List.{Perm}
use mathlib.Core.List.Perm
use assets_system.Prelude.Dict
use assets_system.Prelude.Dict.{Dict}
use assets_system.Prelude.Keys
use assets_system.Prelude.{ℕ, ◌≡◌, Bool, true, Option, none, some, List, [], ◌∷◌, map, All}
use assets_system.Decorators.Memoize.{Python, KeyPart, Arguments, make_key}

module _ {A H T N : Type 0} (python : Python A H T N) where
  -- A named argument up to the equality of values.
  abbrev pub item : N × A → N × H
  item (name, value) = (name, python.class value)

  -- The positional arguments are equal, and the named ones are but for their order.
  abbrev pub AreEqual : Arguments A N → Arguments A N → Type 0
  AreEqual a b =
      (map python.class a.args ≡ map python.class b.args)
      × Perm (map item a.kwargs) (map item b.kwargs)

  abbrev pub AreHashable : Arguments A N → Type 0
  AreHashable a =
      All (λ v. python.is_hashable v ≡ true) a.args
      × All (λ x. python.is_hashable x.1 ≡ true) a.kwargs

  -- what a part of a key keeps of an argument
  abbrev content : KeyPart H T N → Option N × H
  content part = (part.0, part.2)

  abbrev positional_content : H → Option N × H
  positional_content h = (none, h)

  abbrev named_content : N × H → Option N × H
  named_content (name, h) = (some name, h)

  -- the contents without a name, and those with one
  abbrev positionals : List (Option N × H) → List H
  positionals [] = []
  positionals ((none, h) ∷ rest) = h ∷ positionals rest
  positionals ((some n, h) ∷ rest) = positionals rest

  abbrev nameds : List (Option N × H) → List (N × H)
  nameds [] = []
  nameds ((none, h) ∷ rest) = nameds rest
  nameds ((some n, h) ∷ rest) = (n, h) ∷ nameds rest

module _ {A H T N V : Type 0} (python : Python A H T N) (dec : Discrete (List (KeyPart H T N)))
    (maxsize : Option ℕ) (typed : Bool) (func : Arguments A N → V) where
  -- The function returns equal results for equal arguments.
  abbrev pub RespectsEqual : Type 0
  RespectsEqual = (a b : Arguments A N) → AreEqual python a b → func a ≡ func b

  -- The entry is the result for all arguments with its key.
  abbrev IsResult : List (KeyPart H T N) × V → Type 0
  IsResult (key, value) =
      (a : Arguments A N) → AreHashable python a → make_key python typed a ≡ key → value ≡ func a
