-- ===== src/Decorators/Memoize.antt =====
-- memoize.py: the wrapper of the decorator `memoize`, for calls that come one after the other. The
-- function is a pure one of its arguments. Python's `hash`, `repr`, `type`, the order of the names and
-- the equality of values, by their classes, are parameters.
use assets_system.Prelude.Dict
use assets_system.Prelude.Dict.{Dict}
use assets_system.Prelude.Keys
use assets_system.Prelude.{
  ℕ, ◌+◌, ◌≤◌, ◌≡◌, refl, sym, inl, inr, Bool, true, false, Option, none, some, List, [], ◌∷◌, ◌++◌,
  map, ltb, if◌then◌else◌, length, length-append, All, All-append, arith, Option-cases, Bool-cases,
}
pub mod Results

-- `maxsize is not None and len(cache) > maxsize`
unfoldable pub is_over : Option ℕ → ℕ → Bool
is_over none size = false
is_over (some maxsize) size = ltb maxsize size

-- `popitem(last=False)`
unfoldable pub popitem : {A : Type 0} → List A → List A
popitem [] = []
popitem (x ∷ xs) = xs

-- The cache is no larger than `maxsize`.
abbrev pub Fits : {K V : Type 0} → Option ℕ → Dict K V → Type 0
Fits maxsize cache = is_over maxsize (length cache) ≡ false

pub is_over-zero : (maxsize : Option ℕ) → is_over maxsize 0 ≡ false
unfolding is_over
is_over-zero none = refl
is_over-zero (some m) = ground arith

pub over_le :
    (maxsize : Option ℕ) (a b : ℕ) → a ≤ b → is_over maxsize b ≡ false → is_over maxsize a ≡ false
unfolding is_over
over_le none a b l h = refl
over_le (some m) a b l h = ground (arith, l, h)

-- What the code asks of Python's values: `hash` raises no TypeError, `repr` gives a value that is
-- hashable, and two values are equal where they are in the same class.
pub record Python (A H T N : Type 0) : Type 0 where
  pub is_hashable : A → Bool
  pub repr : A → A
  pub class : A → H
  pub type : A → T
  pub name_le : N → N → Bool

-- An element of a key: the name of an argument that has one, its type in the typed mode, and it.
abbrev pub KeyPart : Type 0 → Type 0 → Type 0 → Type 0
KeyPart H T N = Option N × Option T × H

-- The arguments of a call: `args` and the items of `kwargs`.
pub record Arguments (A N : Type 0) : Type 0 where
  pub args : List A
  pub kwargs : List (N × A)

module _ {A H T N : Type 0} (python : Python A H T N) where
  -- the value or its `repr`, as a part of a key
  unfoldable pub hashable : A → H
  hashable value =
      if python.is_hashable value then python.class value else python.class (python.repr value)

  -- `type(value) if typed else None`
  unfoldable pub type_if : Bool → A → Option T
  type_if typed value = if typed then some (python.type value) else none

  -- `sorted(kwargs.items())`; the names are different
  unfoldable pub insert : N × A → List (N × A) → List (N × A)
  insert item [] = item ∷ []
  insert item (x ∷ items) =
      let rest = insert item items in
      if python.name_le item.0 x.0 then item ∷ x ∷ items else x ∷ rest

  unfoldable pub sorted : List (N × A) → List (N × A)
  unfolding insert
  sorted [] = []
  sorted (item ∷ items) = insert item (sorted items)

  unfoldable pub positional : Bool → A → KeyPart H T N
  unfolding hashable type_if
  positional typed arg = (none, type_if typed arg, hashable arg)

  unfoldable pub named : Bool → N × A → KeyPart H T N
  unfolding hashable type_if
  named typed (name, value) = (some name, type_if typed value, hashable value)

  unfoldable pub make_key : Bool → Arguments A N → List (KeyPart H T N)
  unfolding positional named sorted
  make_key typed a = map (positional typed) a.args ++ map (named typed) (sorted a.kwargs)

module _ {K V : Type 0} (dec : Discrete K) where
  unfoldable pub move_to_end : K → V → Dict K V → Dict K V
  move_to_end key value cache = Dict.remove dec key cache ++ (key, value) ∷ []

  -- the second part of the wrapper, after the function has returned
  unfoldable pub store : Option ℕ → K → V → Dict K V → Dict K V
  unfolding is_over popitem move_to_end
  store maxsize key result cache =
      let moved = move_to_end key result (Dict.set dec key result cache) in
      if is_over maxsize (length moved) then popitem moved else moved

  pub All-move_to_end :
      (P : K × V → Type 0) (key : K) (value : V) (cache : Dict K V)
      → All P cache
      → P (key, value)
      → All P (move_to_end key value cache)
  unfolding move_to_end
  All-move_to_end P key value cache h p =
      All-append P (Dict.remove dec key cache) (key, value) (Dict.All-remove dec P key cache h) p

  All-popitem : (P : K × V → Type 0) (cache : Dict K V) → All P cache → All P (popitem cache)
  unfolding popitem
  All-popitem P [] h = tt
  All-popitem P (p ∷ cache) h = h.1

  pub All-store :
      (P : K × V → Type 0) (maxsize : Option ℕ) (key : K) (value : V) (cache : Dict K V)
      → All P cache
      → P (key, value)
      → All P (store maxsize key value cache)
  unfolding store
  All-store P maxsize key value cache h p =
      let added = Dict.set dec key value cache in
      let moved = move_to_end key value added in
      let held = All-move_to_end P key value added (Dict.All-set dec P key value cache p h) p in
      elim (Bool-cases (is_over maxsize (length moved))) [
        | inl e ↦ rw e (All-popitem P moved held)
        | inr e ↦ rw e held
      ]

  pub length-move_to_end :
      (key : K) (value : V) (cache : Dict K V)
      → Keys.has dec cache key ≡ true
      → length (move_to_end key value cache) ≤ length cache
  unfolding move_to_end
  length-move_to_end key value cache h = omega (
    arith,
    length-append (Dict.remove dec key cache) ((key, value) ∷ []),
    Keys.length-remove_lt dec key cache h,
  )

  Fits-popitem :
      (maxsize : Option ℕ) (cache : Dict K V) (size : ℕ)
      → length cache ≤ size + 1
      → is_over maxsize size ≡ false
      → Fits maxsize (popitem cache)
  unfolding popitem
  Fits-popitem maxsize [] size l h = over_le maxsize 0 size (omega arith) h
  Fits-popitem maxsize (p ∷ cache) size l h =
      over_le maxsize (length cache) size (omega (arith, l)) h

  pub Fits-store :
      (maxsize : Option ℕ) (key : K) (value : V) (cache : Dict K V)
      → Dict.get dec key cache ≡ none
      → Fits maxsize cache
      → Fits maxsize (store maxsize key value cache)
  unfolding store
  Fits-store maxsize key value cache absent h =
      let added = Dict.set dec key value cache in
      let moved = move_to_end key value added in
      let size : length moved ≤ length cache + 1 = ground (
        arith,
        length-move_to_end key value added (ground (arith, Dict.get-set_self dec key value cache)),
        Keys.length-set dec key value cache,
      ) in
      elim (Bool-cases (is_over maxsize (length moved))) [
        | inl e ↦ rw e (Fits-popitem maxsize moved (length cache) size h)
        | inr e ↦ rw e e
      ]

-- What is computed of Python's values is compared, so the keys have a decidable equality.
module _ {A H T N V : Type 0} (python : Python A H T N) (dec : Discrete (List (KeyPart H T N)))
    (maxsize : Option ℕ) (typed : Bool) (func : Arguments A N → V) where
  abbrev pub Key : Type 0
  Key = List (KeyPart H T N)

  unfoldable pub wrapper : Arguments A N → Dict Key V → V × Dict Key V
  unfolding store make_key
  wrapper arguments cache =
      let key = make_key python typed arguments in
      elim (Dict.get dec key cache) [
        | some value ↦ (value, move_to_end dec key value cache)
        | none ↦ (func arguments, store dec maxsize key (func arguments) cache)
      ]

  -- Calls of the wrapper, with their results.
  unfoldable pub calls : List (Arguments A N) → Dict Key V → List V × Dict Key V
  unfolding wrapper
  calls [] cache = ([], cache)
  calls (arguments ∷ rest) cache =
      let (value, next) = wrapper arguments cache in
      let (values, last) = calls rest next in (value ∷ values, last)
