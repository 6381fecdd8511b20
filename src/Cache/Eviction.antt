-- ===== src/Cache/Eviction.antt =====
-- The choice of a victim, `_remove_entry`, `_evict` and `_cleanup` of cache_framework.py.
use mathlib.Core.Option
use assets_system.Prelude.Dict
use assets_system.Prelude.Dict.{Dict}
use assets_system.Prelude.{
  ℕ, ◌+◌, Bool, true, Option, none, some, List, [], ◌∷◌, ltb, if◌then◌else◌, ite, length, ◌==◌,
}
use assets_system.Cache.State.{
  evict, expire, CacheEntry, EvictionPolicy, lru, lfu, fifo, Cache, is_expired, event, emit,
}

-- `next(iter(self._lru))`; `none` is the StopIteration
unfoldable pub first_key : {K W : Type 0} → Dict K W → Option K
first_key [] = none
first_key ((k, w) ∷ d) = some k

-- `x < bound`, where the bound `none` is infinite
unfoldable pub below : ℕ → Option ℕ → Bool
below x none = true
below x (some b) = ltb x b

module _ {K V : Type 0} where
  -- the number that the FIFO loop compares
  abbrev pub created : K → CacheEntry K V → ℕ
  created k e = e.created_at

  -- the two loops that look for the smallest number, the first in dict order: over the times of
  -- creation (FIFO) and over the frequencies (LFU)
  unfoldable pub smallest :
      (K → CacheEntry K V → ℕ) → Option ℕ → Option K → Dict K (CacheEntry K V) → Option K
  unfolding below
  smallest f bound victim [] = victim
  smallest f bound victim ((k, e) ∷ d) =
      smallest f (if below (f k e) bound then some (f k e) else bound)
        (if below (f k e) bound then some k else victim) d

  -- `[key for key, entry in self._store.items() if entry.is_expired()]`
  unfoldable pub expired_keys : ℕ → Dict K (CacheEntry K V) → List K
  unfolding is_expired
  expired_keys now [] = []
  expired_keys now ((k, e) ∷ d) =
      let rest = expired_keys now d in if is_expired now e then k ∷ rest else rest

module _ {K V : Type 0} (dec : Discrete K) (empty_key : K) where
  -- `_remove_entry`
  unfoldable pub remove_entry : K → Cache K V → Cache K V
  remove_entry key c = record c {
    store = Dict.remove dec key c.store;
    lru = Dict.remove dec key c.lru;
    freq = Dict.remove dec key c.freq;
  }

  -- the frequency that the LFU loop compares
  abbrev pub frequency : Cache K V → K → CacheEntry K V → ℕ
  frequency c k e = Option.get_or (Dict.get dec k c.freq) 0

  unfoldable pub victim_key : Cache K V → EvictionPolicy → Option K
  unfolding first_key smallest
  victim_key c lru = first_key c.lru
  victim_key c fifo = smallest created none none c.store
  victim_key c lfu = smallest (frequency c) none none c.store

  -- `if victim_key:` and what follows: neither None nor the empty key is evicted
  unfoldable pub evict_key : Option K → Cache K V → Cache K V
  unfolding remove_entry
  evict_key none c = c
  evict_key (some k) c = ite (dec k empty_key) c (
      let c' = remove_entry k c in
      emit (event evict (some k) (Option.map (λ e. e.value) (Dict.get dec k c.store)))
        (record c' { evictions = c'.evictions + 1 }))

  -- the branches of `_evict`; `none` is the StopIteration of an empty LRU order
  unfoldable pub evict_by : EvictionPolicy → Cache K V → Option (Cache K V)
  evict_by lru c = elim (victim_key c lru) [ none ↦ none | some k ↦ some (evict_key (some k) c) ]
  evict_by lfu c = some (evict_key (victim_key c lfu) c)
  evict_by fifo c = some (evict_key (victim_key c fifo) c)

  -- `_evict`
  unfoldable pub evict_one : Cache K V → Option (Cache K V)
  evict_one c = if length c.store == 0 then some c else evict_by c.policy c

  -- the loop of `_cleanup`
  unfoldable pub remove_expired : List K → Cache K V → Cache K V
  unfolding remove_entry
  remove_expired [] c = c
  remove_expired (k ∷ ks) c =
      let c' = remove_entry k c in
      remove_expired ks (
        emit (event expire (some k) (Option.map (λ e. e.value) (Dict.get dec k c.store)))
          (record c' { expirations = c'.expirations + 1 }))

  -- `_cleanup`: the new state and the number of keys removed
  unfoldable pub cleanup : ℕ → Cache K V → Cache K V × ℕ
  cleanup now c =
      let expired = expired_keys now c.store in (remove_expired expired c, length expired)
