-- ===== src/Cache/Reads.antt =====
-- What a read of the cache returns after a write, how lifetimes act, and what the statistics count
-- (cache_framework.py).
use mathlib.Core.Option.{some-injective}
use mathlib.Core.Path.{subst}
use assets_system.Prelude.Dict
use assets_system.Prelude.Dict.{Dict}
use assets_system.Prelude.Keys
use assets_system.Prelude.{
  ℕ, ◌+◌, ◌≤◌, ◌≡◌, ◌≢◌, ◌∙◌, sym, ap, refl, ◌⊎◌, ◌↔◌, inl, inr, true, false, Option, none, some,
  [], ◌∷◌, leb, ◌==◌, length, if_pos, arith, Bool-cases, Option-cases, le→leb, All,
}
use assets_system.Cache.State.{CacheEntry, lru, Cache, is_expired, expired_by}
use assets_system.Cache.Eviction.{
  remove_entry, evict_one, evict_by, evict_key, victim_key, first_key,
}
use assets_system.Cache.Methods
use assets_system.Cache.Methods.{touch, expiry, ttl_or_default}
use assets_system.Cache.Invariant.{IsValid}
use assets_system.Cache.Validity.{hit-IsValid, set-IsValid}

-- A lifetime that was given at `now`, or else the default one, has not passed at `later`.
abbrev pub Lasts : ℕ → ℕ → Option ℕ → Option ℕ → Type 0
Lasts now later (some t) default_ttl = (t ≡ 0) ⊎ (later ≤ now + t)
Lasts now later none (some t) = (t ≡ 0) ⊎ (later ≤ now + t)
Lasts now later none none = Unit

expired_by-some :
    (now later t : ℕ) → (t ≡ 0) ⊎ (later ≤ now + t) → expired_by later (expiry now (some t)) ≡ false
unfolding expired_by expiry
expired_by-some now later t (inl e) = ground (arith, e)
expired_by-some now later t (inr l) = elim (Bool-cases (t == 0)) [
  | inl e ↦ rw e refl
  | inr e ↦ rw e (ground (arith, l))
]

expired_by-default :
    (now later : ℕ) (default_ttl : Option ℕ)
    → Lasts now later none default_ttl
    → expired_by later (expiry now default_ttl) ≡ false
unfolding expired_by expiry
expired_by-default now later none h = refl
expired_by-default now later (some t) h = expired_by-some now later t h

module _ {K V : Type 0} (dec : Discrete K) (empty_key : K) where
  -- What a store holds under a key: the value and the end of its lifetime.
  abbrev pub Holds : Cache K V → K → V → Option ℕ → Type 0
  Holds c key value expire_at =
      (entry : CacheEntry K V) × (Dict.get dec key c.store ≡ some entry)
      × (entry.value ≡ value)
      × (entry.expire_at ≡ expire_at)

  insert-Holds :
      (now : ℕ) (key : K) (value : V) (expire_at : Option ℕ) (c : Cache K V)
      → Holds (Methods.insert dec empty_key now key value expire_at c) key value expire_at
  unfolding Methods.insert
  insert-Holds now key value expire_at c = (_, Dict.get-set_self dec key _ c.store, refl, refl)

  add_new_inserts :
      (now : ℕ) (key : K) (value : V) (expire_at : Option ℕ) (c c' : Cache K V)
      → Methods.add_new dec empty_key now key value expire_at c ≡ some c'
      → (d : Cache K V) × (Methods.insert dec empty_key now key value expire_at d ≡ c')
  unfolding Methods.add_new
  add_new_inserts now key value expire_at c c' h =
      elim (Bool-cases (leb c.max_size (length c.store))) [
        | inl full ↦ elim (Option-cases (evict_one dec empty_key c)) [
          | inl e ↦ absurd (ground (arith, h, full, e))
          | inr (d, e) ↦ (d, ground (arith, h, full, e))
        ]
        | inr free ↦ (c, ground (arith, h, free))
      ]

  update-Holds :
      (now : ℕ) (key : K) (value : V) (expire_at : Option ℕ) (entry : CacheEntry K V)
      (c c' : Cache K V)
      → Methods.update dec empty_key now key value expire_at entry c ≡ some c'
      → Holds c' key value expire_at
  unfolding Methods.update
  update-Holds now key value expire_at entry c c' h =
      let entry' = record entry { value = value; expire_at = expire_at; last_access = now } in
      elim (Option-cases (touch dec c.policy key c.lru)) [
        | inl e ↦ absurd (ground (arith, h, e))
        | inr (order, e) ↦
            (entry', ground (arith, h, e, Dict.get-set_self dec key entry' c.store), refl, refl)
      ]

  set-Holds :
      (now : ℕ) (key : K) (value : V) (t : Option ℕ) (c c' : Cache K V)
      → Methods.set dec empty_key now key value t c ≡ some c'
      → Holds c' key value (expiry now (ttl_or_default dec empty_key t c))
  unfolding Methods.set
  set-Holds now key value t c c' h =
      let expire_at = expiry now (ttl_or_default dec empty_key t c) in
      elim (Option-cases (Dict.get dec key c.store)) [
        | inl e ↦
            let (d, i) =
              add_new_inserts now key value expire_at c c' (sym (rw (e, Methods.set)) ∙ h) in
            subst (λ x. Holds x key value expire_at) i (insert-Holds now key value expire_at d)
        | inr (entry, e) ↦
            update-Holds now key value expire_at entry c c' (sym (rw (e, Methods.set)) ∙ h)
      ]

  get-Holds :
      (now : ℕ) (key : K) (value : V) (expire_at : Option ℕ) (c : Cache K V)
      → IsValid dec empty_key c
      → Holds c key value expire_at
      → expired_by now expire_at ≡ false
      → (Methods.get dec empty_key now key c).0 ≡ some value
  unfolding Methods.get is_expired
  get-Holds now key value expire_at c h (entry, e, v, x) live =
      let live' : is_expired now entry ≡ false = ap (expired_by now) x ∙ live in
      rw (e, Methods.get, live')
        ((hit-IsValid dec empty_key now key entry c h (rw e)).0 ∙ ap some v)

  set_result-IsValid :
      (now : ℕ) (key : K) (value : V) (t : Option ℕ) (c c' : Cache K V)
      → IsValid dec empty_key c
      → key ≢ empty_key
      → Methods.set dec empty_key now key value t c ≡ some c'
      → IsValid dec empty_key c'
  set_result-IsValid now key value t c c' h ne s =
      let (d, e, v) = set-IsValid dec empty_key now key value t c h ne in
      subst (λ x. IsValid dec empty_key x) (some-injective _ _ (sym e ∙ s)) v

  expired_by-expiry :
      (now later : ℕ) (t : Option ℕ) (c : Cache K V)
      → Lasts now later t c.default_ttl
      → expired_by later (expiry now (ttl_or_default dec empty_key t c)) ≡ false
  unfolding expired_by expiry ttl_or_default
  expired_by-expiry now later (some t) c h = expired_by-some now later t h
  expired_by-expiry now later none c h = expired_by-default now later c.default_ttl h

  pub get-set_live :
      (now later : ℕ) (key : K) (value : V) (t : Option ℕ) (c c' : Cache K V)
      → IsValid dec empty_key c
      → key ≢ empty_key
      → Methods.set dec empty_key now key value t c ≡ some c'
      → expired_by later (expiry now (ttl_or_default dec empty_key t c)) ≡ false
      → (Methods.get dec empty_key later key c').0 ≡ some value
  get-set_live now later key value t c c' h ne s live =
      get-Holds later key value (expiry now (ttl_or_default dec empty_key t c)) c'
        (set_result-IsValid now key value t c c' h ne s) (set-Holds now key value t c c' s) live

  -- A value that was set on a valid cache under a key that is not the empty key is read back up to
  -- the end of its lifetime: the one that was given, or else the default one, where none and 0 mean
  -- that it has no end.
  pub get-set :
      (now later : ℕ) (key : K) (value : V) (t : Option ℕ) (c c' : Cache K V)
      → IsValid dec empty_key c
      → key ≢ empty_key
      → Methods.set dec empty_key now key value t c ≡ some c'
      → Lasts now later t c.default_ttl
      → (Methods.get dec empty_key later key c').0 ≡ some value
  get-set now later key value t c c' h ne s lasts =
      get-set_live now later key value t c c' h ne s (expired_by-expiry now later t c lasts)

  -- A read of an entry whose lifetime has passed raises, and leaves the key out of the cache.
  get_expired :
      (now : ℕ) (key : K) (value : V) (expire_at : Option ℕ) (c : Cache K V)
      → Holds c key value expire_at
      → expired_by now expire_at ≡ true
      → ((Methods.get dec empty_key now key c).0 ≡ none)
        × (Dict.get dec key (Methods.get dec empty_key now key c).1.store ≡ none)
  unfolding Methods.get is_expired Methods.drop_expired remove_entry
  get_expired now key value expire_at c (entry, e, v, x) gone =
      let gone' : is_expired now entry ≡ true = ap (expired_by now) x ∙ gone in
      rw (e, Methods.get, gone') (refl, ground (arith, Dict.get-remove dec key key c.store))

  -- Every read of a valid cache counts once: as a hit if it returns a value and as a miss if it
  -- raises.
  get_counts :
      (now : ℕ) (key : K) (c : Cache K V)
      → IsValid dec empty_key c
      → ((Methods.get dec empty_key now key c).1.hits
            + (Methods.get dec empty_key now key c).1.misses
          ≡ c.hits + c.misses + 1)
        × (((Methods.get dec empty_key now key c).1.misses ≡ c.misses)
            ↔ (Keys.is_some dec (Methods.get dec empty_key now key c).0 ≡ true))
  unfolding Methods.get Methods.drop_expired
  get_counts now key c h = elim (Option-cases (Dict.get dec key c.store)) [
    | inl e ↦ rw (e, Methods.get) (omega arith, (λ m. absurd (omega arith), λ b. cc))
    | inr (entry, e) ↦ elim (Bool-cases (is_expired now entry)) [
      | inl x ↦ rw (e, Methods.get, x) (omega arith, (λ m. absurd (omega arith), λ b. cc))
      | inr x ↦
          let (v, w, hits, misses) = hit-IsValid dec empty_key now key entry c h (rw e) in
          rw (e, Methods.get, x) (omega (arith, hits, misses), (λ m. rw v, λ b. misses))
    ]
  ]

  live_keys-absent :
      (now : ℕ) (key : K) (d : Dict K (CacheEntry K V))
      → Dict.get dec key d ≡ none
      → All (λ k. k ≢ key) (Methods.live_keys dec empty_key now d)
  unfolding Methods.live_keys Dict.get
  live_keys-absent now key [] h = tt
  live_keys-absent now key ((j, x) ∷ d) h = elim (dec j key) [
    | yes p ↦ absurd (ground (arith, h))
    | no p ↦
        let rest = live_keys-absent now key d (ground (arith, h)) in
        elim (Bool-cases (Methods.is_listed now x.expire_at)) [
          | inl b ↦ rw (b, Methods.live_keys) (p, rest)
          | inr b ↦ rw (b, Methods.live_keys) rest
        ]
  ]

  live_keys-held :
      (now : ℕ) (key : K) (value : V) (d : Dict K (CacheEntry K V))
      → Dict.Distinct dec d
      → (entry : CacheEntry K V) × (Dict.get dec key d ≡ some entry)
        × (entry.value ≡ value)
        × (entry.expire_at ≡ some now)
      → All (λ k. k ≢ key) (Methods.live_keys dec empty_key now d)
  unfolding Methods.live_keys Dict.get
  live_keys-held now key value [] h (e, g, v, t) = cc
  live_keys-held now key value ((j, x) ∷ d) h (e, g, v, t) = elim (dec j key) [
    | yes p ↦
        let b : Methods.is_listed now x.expire_at ≡ false =
          unfold Methods.is_listed in ground (arith, g, t, p) in
        rw (b, Methods.live_keys)
          (live_keys-absent now key d (subst (λ k. Dict.get dec k d ≡ none) p h.0))
    | no p ↦
        let rest = live_keys-held now key value d h.1 (e, ground (arith, g), v, t) in
        elim (Bool-cases (Methods.is_listed now x.expire_at)) [
          | inl b ↦ rw (b, Methods.live_keys) (p, rest)
          | inr b ↦ rw (b, Methods.live_keys) rest
        ]
  ]

  -- `keys` leaves out an entry at the very tick at which its lifetime ends, where a read of a valid
  -- cache still returns the value.
  get-keys_at_expiry :
      (now : ℕ) (key : K) (value : V) (c : Cache K V)
      → IsValid dec empty_key c
      → Holds c key value (some now)
      → ((Methods.get dec empty_key now key c).0 ≡ some value)
        × All (λ k. k ≢ key) (Methods.keys dec empty_key now c)
  unfolding Methods.keys
  get-keys_at_expiry now key value c h held = (
    get-Holds now key value (some now) c h held (unfold expired_by in ground arith),
    live_keys-held now key value c.store h.distinct held,
  )

  evict_by_empty_key :
      (c : Cache K V) → first_key c.lru ≡ some empty_key → evict_by dec empty_key lru c ≡ some c
  unfolding evict_by evict_key victim_key
  evict_by_empty_key c first = rw (first, evict_by, if_pos (dec empty_key empty_key) refl)

  evict_one_empty_key :
      (c : Cache K V)
      → c.policy ≡ lru
      → first_key c.lru ≡ some empty_key
      → evict_one dec empty_key c ≡ some c
  unfolding evict_one
  evict_one_empty_key c p first = elim (Bool-cases (length c.store == 0)) [
    | inl b ↦ rw b
    | inr b ↦ rw b (ap (λ q. evict_by dec empty_key q c) p ∙ evict_by_empty_key c first)
  ]

  -- Setting a new key in a full LRU cache whose oldest key is the empty key evicts nothing, so the
  -- cache grows past its size.
  set_over_empty_key :
      (now : ℕ) (key : K) (value : V) (t : Option ℕ) (c : Cache K V)
      → c.policy ≡ lru
      → first_key c.lru ≡ some empty_key
      → Dict.get dec key c.store ≡ none
      → c.max_size ≤ length c.store
      → (c' : Cache K V) × (Methods.set dec empty_key now key value t c ≡ some c')
        × (length c'.store ≡ length c.store + 1)
  unfolding Methods.set Methods.add_new Methods.insert
  set_over_empty_key now key value t c p first absent full =
      let expire_at = expiry now (ttl_or_default dec empty_key t c) in
      let entry : CacheEntry K V = record {
        key = key;
        value = value;
        created_at = now;
        last_access = now;
        access_count = 1;
        expire_at = expire_at;
      } in
      (
        Methods.insert dec empty_key now key value expire_at c,
        rw (absent, Methods.set, le→leb _ _ full, evict_one_empty_key c p first),
        ground (arith, Keys.length-set dec key entry c.store, absent),
      )
