-- ===== src/MiniFramework/MiniCacheTtl.antt =====
-- mini_cache_ttl.py: a cache whose entries have a lifetime, in order of use. A call reads the clock
-- once; a round of the cleanup thread is `cleanup`.
use mathlib.Core.Option
use assets_system.Prelude.Dict
use assets_system.Prelude.Dict.{Dict}
use assets_system.Prelude.Keys
use assets_system.Prelude.{
  ℕ, ◌+◌, Bool, false, Option, none, some, List, [], ◌∷◌, ◌++◌, ltb, if◌then◌else◌, length,
}

-- `store` maps a key to the value and the end of its lifetime.
pub record MiniCacheTtl (K V : Type 0) : Type 0 where
  pub default_ttl : ℕ
  pub max_size : Option ℕ
  pub store : Dict K (V × ℕ)

-- `len(self._store) > self._max_size`, unless there is no size
unfoldable pub is_over : ℕ → Option ℕ → Bool
is_over size none = false
is_over size (some m) = ltb m size

-- `popitem(last=False)`
unfoldable pub pop_first : {A : Type 0} → List A → List A
pop_first [] = []
pop_first (x ∷ xs) = xs

module _ {K V : Type 0} (dec : Discrete K) where
  unfoldable pub init : ℕ → Option ℕ → MiniCacheTtl K V
  init default_ttl max_size = record { default_ttl = default_ttl; max_size = max_size; store = [] }

  -- `move_to_end(key)` for a key that is present
  unfoldable pub move_to_end : K → V × ℕ → Dict K (V × ℕ) → Dict K (V × ℕ)
  move_to_end key entry store = Dict.remove dec key store ++ (key, entry) ∷ []

  -- `none` is the KeyError
  unfoldable pub get : ℕ → K → MiniCacheTtl K V → Option V × MiniCacheTtl K V
  unfolding move_to_end
  get now key c = elim (Dict.get dec key c.store) [
    | none ↦ (none, c)
    | some entry ↦
        if ltb entry.1 now
        then (none, record c { store = Dict.remove dec key c.store })
        else (some entry.0, record c { store = move_to_end key entry c.store })
  ]

  unfoldable pub set : ℕ → K → V → Option ℕ → MiniCacheTtl K V → MiniCacheTtl K V
  unfolding move_to_end is_over pop_first
  set now key value ttl c =
      let entry : V × ℕ = (value, now + Option.get_or ttl c.default_ttl) in
      let store' = move_to_end key entry (Dict.set dec key entry c.store) in
      record c { store = if is_over (length store') c.max_size then pop_first store' else store' }

  -- the KeyError of `del` leaves the cache as it is
  unfoldable pub delete : K → MiniCacheTtl K V → Bool × MiniCacheTtl K V
  delete key c = (Keys.has dec c.store key, record c { store = Dict.remove dec key c.store })

  -- the keys that have expired, and their removal
  unfoldable pub remove_expired : ℕ → Dict K (V × ℕ) → Dict K (V × ℕ) → Dict K (V × ℕ)
  remove_expired now [] store = store
  remove_expired now ((k, entry) ∷ rest) store =
      remove_expired now rest (if ltb entry.1 now then Dict.remove dec k store else store)

  unfoldable pub cleanup : ℕ → MiniCacheTtl K V → MiniCacheTtl K V
  unfolding remove_expired
  cleanup now c = record c { store = remove_expired now c.store c.store }
