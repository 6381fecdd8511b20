-- ===== src/Cache/Methods.antt =====
-- The methods of `Cache` in cache_framework.py. A method that may raise returns `none` for the
-- exception beside the state that it leaves.
use mathlib.Core.Option
use assets_system.Prelude.Dict
use assets_system.Prelude.Dict.{Dict}
use assets_system.Prelude.{
  ℕ, ◌+◌, Bool, true, false, Option, none, some, List, [], ◌∷◌, ◌++◌, leb, ltb, if◌then◌else◌, ◌==◌,
  length,
}
use assets_system.Cache.State.{
  EventType, CacheEntry, EvictionPolicy, lru, lfu, fifo, Cache, is_expired, remaining, event, emit,
}
use assets_system.Cache.Eviction.{remove_entry, evict_one}

-- `time.time() + ttl if ttl else None`: no lifetime and a lifetime of 0 give no expiry
unfoldable pub expiry : ℕ → Option ℕ → Option ℕ
expiry now none = none
expiry now (some t) = if t == 0 then none else some (now + t)

unfoldable pub is_listed : ℕ → Option ℕ → Bool
is_listed now none = true
is_listed now (some t) = ltb now t

module _ {K : Type 0} (dec : Discrete K) where
  -- `OrderedDict.move_to_end(key)`; `none` is the KeyError
  unfoldable pub move_to_end : {W : Type 0} → K → Dict K W → Option (Dict K W)
  move_to_end key d = elim (Dict.get dec key d) [
    | none ↦ none
    | some w ↦ some (Dict.remove dec key d ++ (key, w) ∷ [])
  ]

  -- `if self.policy == LRU: self._lru.move_to_end(key)`
  unfoldable pub touch : EvictionPolicy → K → Dict K (Unit {0}) → Option (Dict K (Unit {0}))
  unfolding move_to_end
  touch lru key d = move_to_end {W = Unit {0}} key d
  touch lfu key d = some d
  touch fifo key d = some d

module _ {K V : Type 0} (dec : Discrete K) (empty_key : K) where
  -- the entry has expired: `get` removes it and raises
  unfoldable pub drop_expired : K → CacheEntry K V → Cache K V → Cache K V
  unfolding remove_entry
  drop_expired key entry c =
      let c' = remove_entry dec empty_key key c in
      let c'' =
        emit (event EventType.expire (some key) (some entry.value))
          (record c' { expirations = c'.expirations + 1 }) in
      record c'' { misses = c''.misses + 1 }

  -- the rest of `get` for an entry that is live
  unfoldable pub hit : ℕ → K → CacheEntry K V → Cache K V → Option V × Cache K V
  unfolding touch
  hit now key entry c =
      let entry' = record entry { last_access = now; access_count = entry.access_count + 1 } in
      let c' = record c {
        store = Dict.set dec key entry' c.store;
        freq = Dict.set dec key (entry.access_count + 1) c.freq;
      } in
      elim (touch dec c.policy key c.lru) [
        | none ↦ (none, c')
        | some order ↦ (
          some entry.value,
          emit (event EventType.get_hit (some key) (some entry.value))
              (record c' { lru = order; hits = c'.hits + 1 }),
        )
      ]

  -- `none` is the KeyError
  unfoldable pub get : ℕ → K → Cache K V → Option V × Cache K V
  get now key c = elim (Dict.get dec key c.store) [
    | none ↦
        (none, emit (event EventType.get_miss (some key) none) (record c { misses = c.misses + 1 }))
    | some entry ↦
        if is_expired now entry then (none, drop_expired key entry c) else hit now key entry c
  ]

  -- the lifetime that `set` uses: the argument, or the default
  unfoldable pub ttl_or_default : Option ℕ → Cache K V → Option ℕ
  ttl_or_default none c = c.default_ttl
  ttl_or_default (some t) c = some t

  -- `set` for a key that is present; the entry keeps its count
  unfoldable pub update : ℕ → K → V → Option ℕ → CacheEntry K V → Cache K V → Option (Cache K V)
  unfolding touch
  update now key value expire_at entry c =
      let entry' = record entry { value = value; expire_at = expire_at; last_access = now } in
      elim (touch dec c.policy key c.lru) [
        | none ↦ none
        | some order ↦ some (
            emit (event EventType.set (some key) (some value))
              (record c { store = Dict.set dec key entry' c.store; lru = order }))
      ]

  -- the insertion at the end of `set`
  unfoldable pub insert : ℕ → K → V → Option ℕ → Cache K V → Cache K V
  insert now key value expire_at c =
      let entry : CacheEntry K V = record {
        key = key;
        value = value;
        created_at = now;
        last_access = now;
        access_count = 1;
        expire_at = expire_at;
      } in
      emit (event EventType.set (some key) (some value)) (record c {
        store = Dict.set dec key entry c.store;
        lru = Dict.set dec key tt c.lru;
        freq = Dict.set dec key 1 c.freq;
      })

  -- `set` for a new key
  unfoldable pub add_new : ℕ → K → V → Option ℕ → Cache K V → Option (Cache K V)
  unfolding insert
  add_new now key value expire_at c =
      if leb c.max_size (length c.store)
      then Option.map (insert now key value expire_at) (evict_one dec empty_key c)
      else some (insert now key value expire_at c)

  -- `none` is an exception out of the ordered dict
  unfoldable pub set : ℕ → K → V → Option ℕ → Cache K V → Option (Cache K V)
  unfolding ttl_or_default expiry
  set now key value ttl c =
      let expire_at = expiry now (ttl_or_default ttl c) in
      elim (Dict.get dec key c.store) [
        | none ↦ add_new now key value expire_at c
        | some entry ↦ update now key value expire_at entry c
      ]

  unfoldable pub delete : K → Cache K V → Bool × Cache K V
  unfolding remove_entry
  delete key c = elim (Dict.get dec key c.store) [
    | none ↦ (false, c)
    | some entry ↦ (
      true,
      emit (event EventType.delete (some key) (some entry.value))
          (remove_entry dec empty_key key c),
    )
  ]

  unfoldable pub has : ℕ → K → Cache K V → Bool × Cache K V
  has now key c =
      let (found, c') = get now key c in (elim found [ none ↦ false | some v ↦ true ], c')

  unfoldable pub live_keys : ℕ → Dict K (CacheEntry K V) → List K
  unfolding is_listed
  live_keys now [] = []
  live_keys now ((k, e) ∷ d) =
      let rest = live_keys now d in if is_listed now e.expire_at then k ∷ rest else rest

  -- `keys`
  unfoldable pub keys : ℕ → Cache K V → List K
  keys now c = live_keys now c.store

  unfoldable pub clear_all : Cache K V → Cache K V
  clear_all c =
      emit (event EventType.clear none none) (record c { store = []; lru = []; freq = [] })

  -- `ttl`: `none` for a key that is absent and for an entry with no expiry alike
  unfoldable pub ttl : ℕ → K → Cache K V → Option ℕ
  ttl now key c = elim (Dict.get dec key c.store) [
    | none ↦ none
    | some entry ↦ remaining now entry.expire_at
  ]

  unfoldable pub expire : ℕ → K → ℕ → Cache K V → Bool × Cache K V
  expire now key t c = elim (Dict.get dec key c.store) [
    | none ↦ (false, c)
    | some entry ↦ (
      true,
      record c { store = Dict.set dec key (record entry { expire_at = some (now + t) }) c.store },
    )
  ]

  -- `get_or_set`: the factory is asked only after a miss; `none` is an exception of `set`
  unfoldable pub get_or_set : ℕ → K → (Unit {0} → V) → Option ℕ → Cache K V → Option (V × Cache K V)
  get_or_set now key factory t c =
      let (found, c') = get now key c in
      elim found [
        | some v ↦ some (v, c')
        | none ↦ Option.map (λ c''. (factory tt, c'')) (set now key (factory tt) t c')
      ]

  -- `mset`
  unfoldable pub mset : ℕ → Dict K V → Option ℕ → Cache K V → Option (Cache K V)
  mset now [] t c = some c
  mset now ((key, value) ∷ rest) t c = elim (set now key value t c) [
    | none ↦ none
    | some c' ↦ mset now rest t c'
  ]

  -- the loop of `mget` over the keys, with the result so far
  unfoldable pub mget : ℕ → List K → Dict K V → Cache K V → Dict K V × Cache K V
  mget now [] result c = (result, c)
  mget now (key ∷ rest) result c =
      let (found, c') = get now key c in
      mget now rest (elim found [ none ↦ result | some v ↦ Dict.set dec key v result ]) c'

  -- `close`: the timer is not modelled
  unfoldable pub close : Cache K V → Cache K V
  unfolding clear_all
  close c = clear_all (record c { closed = true })
