-- ===== src/Cache/Validity.antt =====
-- The methods of the cache under its invariant (cache_framework.py).
use mathlib.Core.Path.{subst}
use assets_system.Prelude.Dict
use assets_system.Prelude.Dict.{Dict}
use assets_system.Prelude.Keys
use assets_system.Prelude.{
  ℕ, ◌+◌, ◌<◌, ◌≡◌, ◌≢◌, ◌∙◌, sym, refl, inl, inr, true, Option, some, List, [], ◌∷◌, ◌++◌, leb,
  length, arith, Bool-cases, Option-cases, leb→le,
}
use assets_system.Cache.State.{CacheEntry, EvictionPolicy, lru, lfu, fifo, Cache, is_expired}
use assets_system.Cache.Eviction.{remove_expired, cleanup, expired_keys}
use assets_system.Cache.Methods
use assets_system.Cache.Methods.{move_to_end, touch}
use assets_system.Cache.Invariant.{IsValid, remove_entry-IsValid, evict_one-Evicted}

module _ {K : Type 0} (dec : Discrete K) where
  -- the keys after a move to the end
  has-moved :
      (key j : K) (d : Dict K (Unit {0}))
      → Keys.has dec d key ≡ true
      → Keys.has dec (Dict.remove dec key d ++ (key, tt) ∷ []) j ≡ Keys.has dec d j
  unfolding Dict.get
  has-moved key j d h = elim (dec key j) [
    | yes p ↦
        Keys.has-append dec j (Dict.remove dec key d) ((key, tt) ∷ [])
        ∙ ground (arith, Keys.has-remove dec key j d, subst (λ t. Keys.has dec d t ≡ true) p h)
    | no p ↦
        Keys.has-append dec j (Dict.remove dec key d) ((key, tt) ∷ [])
        ∙ ground (arith, Keys.has-remove dec key j d)
  ]

  -- the order after a read or a write of a key that is in it
  record Touched (d order : Dict K (Unit {0})) : Type 0 where
    same : (j : K) → Keys.has dec order j ≡ Keys.has dec d j

  touch-Touched :
      (policy : EvictionPolicy) (key : K) (d : Dict K (Unit {0}))
      → Keys.has dec d key ≡ true
      → (order : Dict K (Unit {0})) × (touch dec policy key d ≡ some order) × Touched d order
  unfolding touch
  touch-Touched lru key d h = elim (Option-cases (Dict.get dec key d)) [
    | inl e ↦ cc (e, h)
    | inr (w, e) ↦ (
      Dict.remove dec key d ++ (key, tt) ∷ [],
      rw (e, move_to_end),
      record { same = λ j. has-moved key j d h },
    )
  ]
  touch-Touched lfu key d h = (d, refl, record { same = λ j. refl })
  touch-Touched fifo key d h = (d, refl, record { same = λ j. refl })

module _ {K V : Type 0} (dec : Discrete K) (empty_key : K) where
  -- A state that differs from a valid one in the entry of a key that was there, in the order of the
  -- keys, and in what the invariant does not name.
  overwritten-IsValid :
      (c c' : Cache K V) (key : K) (entry : CacheEntry K V)
      → IsValid dec empty_key c
      → Keys.has dec c.store key ≡ true
      → c'.store ≡ Dict.set dec key entry c.store
      → Touched dec c.lru c'.lru
      → c'.max_size ≡ c.max_size
      → IsValid dec empty_key c'
  overwritten-IsValid c c' key entry h e s o m = record {
    distinct = rw s (Dict.Distinct-set dec key entry c.store h.distinct);
    order = λ j. o.same j ∙ h.order j ∙ rw s (sym (same_keys j));
    named = rw s (same_keys empty_key ∙ h.named);
    room = omega (arith, h.room);
    bounded = rw (s, m) (ground (arith, Keys.length-set dec key entry c.store, e, h.bounded));
  }
    where
      same_keys : (j : K) → Keys.has dec (Dict.set dec key entry c.store) j ≡ Keys.has dec c.store j
      same_keys j = elim (dec key j) [
        | yes p ↦ ground (
          arith,
          Keys.has-set dec key j entry c.store,
          subst (λ t. Keys.has dec c.store t ≡ true) p e,
        )
        | no p ↦ ground (arith, Keys.has-set dec key j entry c.store)
      ]

  pub hit-IsValid :
      (now : ℕ) (key : K) (entry : CacheEntry K V) (c : Cache K V)
      → IsValid dec empty_key c
      → Keys.has dec c.store key ≡ true
      → ((Methods.hit dec empty_key now key entry c).0 ≡ some entry.value)
        × IsValid dec empty_key (Methods.hit dec empty_key now key entry c).1
        × ((Methods.hit dec empty_key now key entry c).1.hits ≡ c.hits + 1)
        × ((Methods.hit dec empty_key now key entry c).1.misses ≡ c.misses)
  unfolding Methods.hit
  hit-IsValid now key entry c h e =
      let (order, t, same) = touch-Touched dec c.policy key c.lru (h.order key ∙ e) in
      let entry' = record entry { last_access = now; access_count = entry.access_count + 1 } in
      rw (t, Methods.hit) (refl, overwritten-IsValid c _ key entry' h e refl same refl, refl, refl)

  drop_expired-IsValid :
      (key : K) (entry : CacheEntry K V) (c : Cache K V)
      → IsValid dec empty_key c
      → IsValid dec empty_key (Methods.drop_expired dec empty_key key entry c)
  unfolding Methods.drop_expired
  drop_expired-IsValid key entry c h =
      let r = remove_entry-IsValid dec empty_key key c h in
      record {
        distinct = r.distinct;
        order = r.order;
        named = r.named;
        room = r.room;
        bounded = r.bounded;
      }

  get-IsValid :
      (now : ℕ) (key : K) (c : Cache K V)
      → IsValid dec empty_key c
      → IsValid dec empty_key (Methods.get dec empty_key now key c).1
  unfolding Methods.get
  get-IsValid now key c h = elim (Option-cases (Dict.get dec key c.store)) [
    | inl e ↦
        rw (e, Methods.get)
          (record {
            distinct = h.distinct;
            order = h.order;
            named = h.named;
            room = h.room;
            bounded = h.bounded;
          })
    | inr (entry, e) ↦ elim (Bool-cases (is_expired now entry)) [
      | inl x ↦ rw (e, Methods.get, x) (drop_expired-IsValid key entry c h)
      | inr x ↦ rw (e, Methods.get, x) (hit-IsValid now key entry c h (rw e)).1
    ]
  ]

  insert-IsValid :
      (now : ℕ) (key : K) (value : V) (expire_at : Option ℕ) (c : Cache K V)
      → IsValid dec empty_key c
      → key ≢ empty_key
      → length c.store < c.max_size
      → IsValid dec empty_key (Methods.insert dec empty_key now key value expire_at c)
  unfolding Methods.insert
  insert-IsValid now key value expire_at c h ne room =
      let entry : CacheEntry K V = record {
        key = key;
        value = value;
        created_at = now;
        last_access = now;
        access_count = 1;
        expire_at = expire_at;
      } in
      record {
        distinct = Dict.Distinct-set dec key entry c.store h.distinct;
        order = λ j. ground (
          arith,
          Keys.has-set dec key j tt c.lru,
          Keys.has-set dec key j entry c.store,
          h.order j,
        );
        named = ground (arith, Keys.has-set dec key empty_key entry c.store, h.named);
        room = h.room;
        bounded = ground (arith, Keys.length-set dec key entry c.store);
      }

  update-IsValid :
      (now : ℕ) (key : K) (value : V) (expire_at : Option ℕ) (entry : CacheEntry K V)
      (c : Cache K V)
      → IsValid dec empty_key c
      → Keys.has dec c.store key ≡ true
      → (c' : Cache K V) × (Methods.update dec empty_key now key value expire_at entry c ≡ some c')
        × IsValid dec empty_key c'
  unfolding Methods.update
  update-IsValid now key value expire_at entry c h e =
      let (order, t, same) = touch-Touched dec c.policy key c.lru (h.order key ∙ e) in
      let entry' = record entry { value = value; expire_at = expire_at; last_access = now } in
      rw (t, Methods.update) (_, refl, overwritten-IsValid c _ key entry' h e refl same refl)

  add_new-IsValid :
      (now : ℕ) (key : K) (value : V) (expire_at : Option ℕ) (c : Cache K V)
      → IsValid dec empty_key c
      → key ≢ empty_key
      → (c' : Cache K V) × (Methods.add_new dec empty_key now key value expire_at c ≡ some c')
        × IsValid dec empty_key c'
  unfolding Methods.add_new
  add_new-IsValid now key value expire_at c h ne =
      elim (Bool-cases (leb c.max_size (length c.store))) [
        | inl full ↦
            let (c', e, v) =
              evict_one-Evicted dec empty_key c h (omega (arith, leb→le _ _ full, h.room)) in
            rw (full, e)
              (
                _,
                refl,
                insert-IsValid now key value expire_at c' v.valid ne
                    (omega (arith, v.shorter, v.same_size, h.bounded)),
              )
        | inr free ↦ rw free (_, refl, insert-IsValid now key value expire_at c h ne (ground arith))
      ]

  -- Setting a key that is not empty in a valid cache raises nothing and gives a valid cache: at most
  -- `max_size` entries, no key twice, and the LRU order over the same keys.
  pub set-IsValid :
      (now : ℕ) (key : K) (value : V) (t : Option ℕ) (c : Cache K V)
      → IsValid dec empty_key c
      → key ≢ empty_key
      → (c' : Cache K V) × (Methods.set dec empty_key now key value t c ≡ some c')
        × IsValid dec empty_key c'
  unfolding Methods.set
  set-IsValid now key value t c h ne =
      let expire_at = Methods.expiry now (Methods.ttl_or_default dec empty_key t c) in
      elim (Option-cases (Dict.get dec key c.store)) [
        | inl e ↦ rw (e, Methods.set) (add_new-IsValid now key value expire_at c h ne)
        | inr (entry, e) ↦
            rw (e, Methods.set) (update-IsValid now key value expire_at entry c h (rw e))
      ]

  remove_expired-IsValid :
      (ks : List K) (c : Cache K V)
      → IsValid dec empty_key c
      → IsValid dec empty_key (remove_expired dec empty_key ks c)
  unfolding remove_expired
  remove_expired-IsValid [] c h = h
  remove_expired-IsValid (k ∷ ks) c h =
      let r = remove_entry-IsValid dec empty_key k c h in
      remove_expired-IsValid ks _ (record {
        distinct = r.distinct;
        order = r.order;
        named = r.named;
        room = r.room;
        bounded = r.bounded;
      })

  delete-IsValid :
      (key : K) (c : Cache K V)
      → IsValid dec empty_key c
      → IsValid dec empty_key (Methods.delete dec empty_key key c).1
  unfolding Methods.delete
  delete-IsValid key c h = elim (Option-cases (Dict.get dec key c.store)) [
    | inl e ↦ rw (e, Methods.delete) h
    | inr (entry, e) ↦
        let r = remove_entry-IsValid dec empty_key key c h in
        rw (e, Methods.delete)
          (record {
            distinct = r.distinct;
            order = r.order;
            named = r.named;
            room = r.room;
            bounded = r.bounded;
          })
  ]

  expire-IsValid :
      (now : ℕ) (key : K) (t : ℕ) (c : Cache K V)
      → IsValid dec empty_key c
      → IsValid dec empty_key (Methods.expire dec empty_key now key t c).1
  unfolding Methods.expire
  expire-IsValid now key t c h = elim (Option-cases (Dict.get dec key c.store)) [
    | inl e ↦ rw (e, Methods.expire) h
    | inr (entry, e) ↦
        rw (e, Methods.expire)
          (overwritten-IsValid c _ key (record entry { expire_at = some (now + t) }) h (rw e) refl
            (record { same = λ j. refl }) refl)
  ]

  -- A read, a deletion, a new lifetime, a cleanup and clearing keep a valid cache valid.
  pub methods-IsValid :
      (now : ℕ) (key : K) (t : ℕ) (c : Cache K V)
      → IsValid dec empty_key c
      → IsValid dec empty_key (Methods.get dec empty_key now key c).1
        × IsValid dec empty_key (Methods.delete dec empty_key key c).1
        × IsValid dec empty_key (Methods.expire dec empty_key now key t c).1
        × IsValid dec empty_key (cleanup dec empty_key now c).0
        × IsValid dec empty_key (Methods.clear_all dec empty_key c)
  unfolding cleanup Methods.clear_all Dict.get
  methods-IsValid now key t c h = (
    get-IsValid now key c h,
    delete-IsValid key c h,
    expire-IsValid now key t c h,
    remove_expired-IsValid (expired_keys now c.store) c h,
    record { distinct = tt; order = λ j. refl; named = refl; room = h.room; bounded = omega arith },
  )
