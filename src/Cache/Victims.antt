-- ===== src/Cache/Victims.antt =====
-- Whom the cache evicts (cache_framework.py, `_evict`): the search for the smallest number, and the
-- victim under each policy.
use mathlib.Core.Path.{subst}
use assets_system.Prelude.Dict
use assets_system.Prelude.Dict.{Dict}
use assets_system.Prelude.{
  ℕ, ◌≤◌, ◌<◌, ◌≡◌, sym, refl, ◌⊎◌, inl, inr, none, some, [], ◌∷◌, ltb, length, if_pos, arith,
  Bool-cases, All, ltb→lt,
}
use assets_system.Cache.State.{CacheEntry, EvictionPolicy, lru, lfu, fifo, Cache}
use assets_system.Cache.Eviction.{first_key, smallest, frequency, created}

module _ {K V : Type 0} (dec : Discrete K) (f : K → CacheEntry K V → ℕ) where
  -- `m` is at most the number of every entry.
  abbrev pub IsLeast : ℕ → Dict K (CacheEntry K V) → Type 0
  IsLeast m = All (λ p. m ≤ f p.0 p.1)

  -- An entry of the dict with the smallest number, and its key.
  abbrev pub Smallest : Dict K (CacheEntry K V) → K → Type 0
  Smallest d k = (e : CacheEntry K V) × (Dict.get dec k d ≡ some e) × IsLeast (f k e) d

  -- the outcome of the search from the bound `b` of the victim `v`
  abbrev Found : ℕ → K → Dict K (CacheEntry K V) → K → Type 0
  Found b v d k =
      ((k ≡ v) × IsLeast b d)
      ⊎ ((e : CacheEntry K V) × (Dict.get dec k d ≡ some e) × (f k e < b) × IsLeast (f k e) d)

  get_tail :
      (j k : K) (x e : CacheEntry K V) (d : Dict K (CacheEntry K V))
      → Dict.get dec j d ≡ none
      → Dict.get dec k d ≡ some e
      → Dict.get dec k ((j, x) ∷ d) ≡ some e
  unfolding Dict.get
  get_tail j k x e d h g = ground (arith, h, g)

  Found-lower :
      (b : ℕ) (v j k : K) (x : CacheEntry K V) (d : Dict K (CacheEntry K V))
      → Dict.get dec j d ≡ none
      → f j x < b
      → Found (f j x) j d k
      → Found b v ((j, x) ∷ d) k
  unfolding Dict.get
  Found-lower b v j k x d h l (inl (e, least)) =
      subst (λ t. Found b v ((j, x) ∷ d) t) (sym e)
        (inr (x, if_pos (dec j j) refl _ _, l, (omega arith, least)))
  Found-lower b v j k x d h l (inr (e, g, less, least)) =
      inr (e, get_tail j k x e d h g, omega arith, (omega arith, least))

  Found-keep :
      (b : ℕ) (v j k : K) (x : CacheEntry K V) (d : Dict K (CacheEntry K V))
      → Dict.get dec j d ≡ none
      → b ≤ f j x
      → Found b v d k
      → Found b v ((j, x) ∷ d) k
  Found-keep b v j k x d h l (inl (e, least)) = inl (e, (l, least))
  Found-keep b v j k x d h l (inr (e, g, less, least)) =
      inr (e, get_tail j k x e d h g, less, (omega arith, least))

  smallest-Found :
      (d : Dict K (CacheEntry K V)) (b : ℕ) (v : K)
      → Dict.Distinct dec d
      → (k : K) × (smallest f (some b) (some v) d ≡ some k) × Found b v d k
  unfolding smallest
  smallest-Found [] b v h = (v, refl, inl (refl, tt))
  smallest-Found ((j, x) ∷ d) b v h = elim (Bool-cases (ltb (f j x) b)) [
    | inl l ↦
        let (k, e, found) = smallest-Found d (f j x) j h.1 in
        (k, rw l e, Found-lower b v j k x d h.0 (ltb→lt _ _ l) found)
    | inr l ↦
        let (k, e, found) = smallest-Found d b v h.1 in
        (k, rw l e, Found-keep b v j k x d h.0 (ground arith) found)
  ]

  from_Found :
      (j : K) (x : CacheEntry K V) (d : Dict K (CacheEntry K V)) (k : K)
      → Dict.get dec j d ≡ none
      → Found (f j x) j d k
      → Smallest ((j, x) ∷ d) k
  unfolding Dict.get
  from_Found j x d k h (inl (e, least)) =
      subst (λ t. Smallest ((j, x) ∷ d) t) (sym e)
        (x, if_pos (dec j j) refl _ _, (omega arith, least))
  from_Found j x d k h (inr (e, g, less, least)) = (e, get_tail j k x e d h g, (omega arith, least))

  -- the search from nothing, over a dict that is not empty
  smallest-Smallest :
      (j : K) (x : CacheEntry K V) (d : Dict K (CacheEntry K V))
      → Dict.Distinct dec ((j, x) ∷ d)
      → (k : K) × (smallest f none none ((j, x) ∷ d) ≡ some k) × Smallest ((j, x) ∷ d) k
  unfolding smallest
  smallest-Smallest j x d h =
      let (k, e, found) = smallest-Found d (f j x) j h.1 in (k, e, from_Found j x d k h.0 found)

  pub smallest-search :
      (d : Dict K (CacheEntry K V))
      → Dict.Distinct dec d
      → 0 < length d
      → (k : K) × (smallest f none none d ≡ some k) × Smallest d k
  smallest-search [] h n = absurd (omega arith)
  smallest-search ((j, x) ∷ d) h n = smallest-Smallest j x d h

module _ {K V : Type 0} (dec : Discrete K) (empty_key : K) where
  -- The victim of FIFO was created no later than any entry, the victim of LFU has been read no more
  -- often than any entry, and the victim of LRU is the first key of the LRU order.
  abbrev pub IsVictim : Cache K V → EvictionPolicy → K → Type 0
  IsVictim c lru k = first_key c.lru ≡ some k
  IsVictim c fifo k = Smallest dec created c.store k
  IsVictim c lfu k = Smallest dec (frequency dec empty_key c) c.store k
