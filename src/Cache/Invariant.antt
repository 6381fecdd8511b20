-- ===== src/Cache/Invariant.antt =====
-- The invariant of the cache, and eviction and cleanup under it (cache_framework.py).
use mathlib.Core.Path.{subst}
use assets_system.Prelude.Dict
use assets_system.Prelude.Dict.{Dict}
use assets_system.Prelude.Keys
use assets_system.Prelude.{
  ℕ, ◌+◌, ◌≤◌, ◌<◌, ◌≡◌, ◌∙◌, sym, refl, true, false, some, [], ◌∷◌, ◌==◌, length, if_neg, arith,
}
use assets_system.Cache.State.{CacheEntry, EvictionPolicy, lru, lfu, fifo, Cache}
use assets_system.Cache.Eviction.{
  remove_entry, evict_one, evict_by, evict_key, victim_key, first_key, frequency, created,
}
use assets_system.Cache.Victims.{Smallest, IsVictim, smallest-search}

module _ {K W : Type 0} (dec : Discrete K) where
  has_some : (d : Dict K W) → 0 < length d → (k : K) × (Keys.has dec d k ≡ true)
  unfolding Dict.get
  has_some [] n = absurd (omega arith)
  has_some ((k, w) ∷ d) n = (k, ground arith)

  has-first_key :
      (d : Dict K W) (j : K)
      → Keys.has dec d j ≡ true
      → (k : K) × (first_key d ≡ some k) × (Keys.has dec d k ≡ true)
  unfolding Dict.get first_key
  has-first_key [] j h = cc
  has-first_key ((k, w) ∷ d) j h = (k, refl, ground arith)

module _ {K V : Type 0} (dec : Discrete K) (empty_key : K) where
  -- The dict has no key twice and no empty key, the LRU order has the same keys, and there are at
  -- most `max_size` entries.
  pub record IsValid (c : Cache K V) : Type 0 where
    pub distinct : Dict.Distinct dec c.store
    pub order : (k : K) → Keys.has dec c.lru k ≡ Keys.has dec c.store k
    pub named : Keys.has dec c.store empty_key ≡ false
    pub room : 0 < c.max_size
    pub bounded : length c.store ≤ c.max_size

  pub remove_entry-IsValid :
      (k : K) (c : Cache K V) → IsValid c → IsValid (remove_entry dec empty_key k c)
  unfolding remove_entry
  remove_entry-IsValid k c h = record {
    distinct = Dict.Distinct-remove dec k c.store h.distinct;
    order = λ j.
        ground (arith, Keys.has-remove dec k j c.lru, Keys.has-remove dec k j c.store, h.order j);
    named = ground (arith, Keys.has-remove dec k empty_key c.store, h.named);
    room = h.room;
    bounded = omega (arith, Keys.length-remove-le dec k c.store, h.bounded);
  }

  length-remove_entry :
      (k : K) (c : Cache K V)
      → IsValid c
      → Keys.has dec c.store k ≡ true
      → length (remove_entry dec empty_key k c).store + 1 ≡ length c.store
  unfolding remove_entry
  length-remove_entry k c h e = ground (arith, Keys.length-remove dec k c.store h.distinct, e)

  has-Smallest :
      (f : K → CacheEntry K V → ℕ) (d : Dict K (CacheEntry K V)) (k : K)
      → Smallest dec f d k
      → Keys.has dec d k ≡ true
  has-Smallest f d k (e, g, least) = rw g

  -- In a valid cache that is not empty each policy finds a victim, which is in the cache: under FIFO
  -- an entry created no later than any other, under LFU one whose frequency is no larger than that
  -- of any other, under LRU the first key of the LRU order.
  pub victim_key-IsVictim :
      (c : Cache K V) (policy : EvictionPolicy)
      → IsValid c
      → 0 < length c.store
      → (k : K) × (victim_key dec empty_key c policy ≡ some k)
        × IsVictim dec empty_key c policy k
        × (Keys.has dec c.store k ≡ true)
  unfolding victim_key
  victim_key-IsVictim c lru h n =
      let (j, hj) = has_some dec c.store n in
      let (k, e, hk) = has-first_key dec c.lru j (h.order j ∙ hj) in (k, e, e, sym (h.order k) ∙ hk)
  victim_key-IsVictim c fifo h n =
      let (k, e, s) = smallest-search dec created c.store h.distinct n in
      (k, e, s, has-Smallest created c.store k s)
  victim_key-IsVictim c lfu h n =
      let f = frequency dec empty_key c in
      let (k, e, s) = smallest-search dec f c.store h.distinct n in
      (k, e, s, has-Smallest f c.store k s)

  -- What an eviction does to a valid cache that is not empty.
  pub record Evicted (c c' : Cache K V) : Type 0 where
    pub valid : IsValid c'
    pub shorter : length c'.store + 1 ≡ length c.store
    pub same_size : c'.max_size ≡ c.max_size

  -- the state after the eviction of one key
  evict_key-Evicted :
      (k : K) (c : Cache K V)
      → IsValid c
      → Keys.has dec c.store k ≡ true
      → Evicted c (evict_key dec empty_key (some k) c)
  unfolding evict_key
  evict_key-Evicted k c h e = elim (dec k empty_key) [
    | yes p ↦ cc (sym h.named ∙ subst (λ t. Keys.has dec c.store t ≡ true) p e)
    | no p ↦
        let r = remove_entry-IsValid k c h in
        rw (if_neg _ p) (record {
          valid = record {
            distinct = r.distinct;
            order = r.order;
            named = r.named;
            room = r.room;
            bounded = r.bounded;
          };
          shorter = length-remove_entry k c h e;
          same_size = refl;
        })
  ]

  evict_by-Evicted :
      (policy : EvictionPolicy) (c : Cache K V)
      → IsValid c
      → 0 < length c.store
      → (c' : Cache K V) × (evict_by dec empty_key policy c ≡ some c') × Evicted c c'
  unfolding evict_by
  evict_by-Evicted lru c h n =
      let (k, e, v, hk) = victim_key-IsVictim c lru h n in
      (evict_key dec empty_key (some k) c, rw (e, evict_by), evict_key-Evicted k c h hk)
  evict_by-Evicted lfu c h n =
      let (k, e, v, hk) = victim_key-IsVictim c lfu h n in
      (evict_key dec empty_key (some k) c, rw e, evict_key-Evicted k c h hk)
  evict_by-Evicted fifo c h n =
      let (k, e, v, hk) = victim_key-IsVictim c fifo h n in
      (evict_key dec empty_key (some k) c, rw e, evict_key-Evicted k c h hk)

  pub evict_one-Evicted :
      (c : Cache K V)
      → IsValid c
      → 0 < length c.store
      → (c' : Cache K V) × (evict_one dec empty_key c ≡ some c') × Evicted c c'
  unfolding evict_one
  evict_one-Evicted c h n =
      let test : (length c.store == 0) ≡ false = ground arith in
      rw test (evict_by-Evicted c.policy c h n)
