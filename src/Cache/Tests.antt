-- ===== src/Cache/Tests.antt =====
-- The cache with keys and values that are numbers, the empty key 0, and the theorems at its states.
use mathlib.Core.Option
use assets_system.Prelude.Dict
use assets_system.Prelude.Dict.{Dict}
use assets_system.Prelude.Keys
use assets_system.Prelude.{
  Option, ℕ, ◌≡◌, inr, refl, true, false, none, some, [], ◌∷◌, arith, ℕ_discrete,
}
use assets_system.Cache.State.{
  CacheEntry, EvictionPolicy, lru, lfu, fifo, Cache, init, is_expired, expired_by, remaining,
}
use assets_system.Cache.Eviction.{
  victim_key, evict_one, evict_by, evict_key, first_key, smallest, below, remove_entry, cleanup,
  remove_expired, expired_keys,
}
use assets_system.Cache.Methods
use assets_system.Cache.Victims.{IsVictim}
use assets_system.Cache.Invariant.{IsValid, victim_key-IsVictim}
use assets_system.Cache.Validity.{set-IsValid}
use assets_system.Cache.MultiLevel
use assets_system.Cache.MultiLevel.{Level}
use assets_system.Cache.Reads.{Holds, get-set}

program : Unit {0}
unfolding init is_expired expired_by remaining victim_key evict_one evict_by evict_key first_key
    smallest below remove_entry cleanup remove_expired expired_keys Methods.expiry Methods.is_listed
    Methods.move_to_end Methods.touch Methods.drop_expired Methods.hit Methods.get
    Methods.ttl_or_default Methods.update Methods.insert Methods.add_new Methods.set Methods.delete
    Methods.has Methods.live_keys Methods.keys Methods.clear_all Methods.ttl Methods.expire
    Methods.get_or_set Methods.mset Methods.mget Methods.close Dict.get Dict.set Dict.remove
    ℕ_discrete
program = tt

abbrev entry : ℕ → ℕ → ℕ → CacheEntry ℕ ℕ
entry key value count = record {
  key = key;
  value = value;
  created_at = key;
  last_access = key;
  access_count = count;
  expire_at = some 9;
}

-- two keys, of which 2 is older in the LRU order and 1 was read less often
abbrev full : EvictionPolicy → Cache ℕ ℕ
full policy = record {
  max_size = 2;
  default_ttl = some 5;
  policy = policy;
  store = (1, entry 1 10 1) ∷ (2, entry 2 20 3) ∷ [];
  lru = (2, tt) ∷ (1, tt) ∷ [];
  freq = (1, 1) ∷ (2, 3) ∷ [];
  emitted = [];
  hits = 0;
  misses = 0;
  evictions = 0;
  expirations = 0;
  closed = false;
}

-- what a set of key 3 at time 4 leaves
abbrev after_set : EvictionPolicy → Cache ℕ ℕ
after_set policy = Option.get_or (Methods.set ℕ_discrete 0 4 3 30 none (full policy)) (full policy)

set_evicts_lru : Methods.keys ℕ_discrete 0 4 (after_set lru) ≡ 1 ∷ 3 ∷ []
unfolding program
set_evicts_lru = refl

set_evicts_lfu : Methods.keys ℕ_discrete 0 4 (after_set lfu) ≡ 2 ∷ 3 ∷ []
unfolding program
set_evicts_lfu = refl

set_evicts_fifo : Methods.keys ℕ_discrete 0 4 (after_set fifo) ≡ 2 ∷ 3 ∷ []
unfolding program
set_evicts_fifo = refl

get_or_set_counts :
    Option.map {B = ℕ × ℕ × ℕ}
      (λ p. (p.0, p.1.hits, p.1.misses))
      (Methods.get_or_set ℕ_discrete 0 4 7 (λ u. 70) none (full lru))
    ≡ some (70, 0, 1)
unfolding program
get_or_set_counts = refl

mget_collects :
    (Methods.mget ℕ_discrete 0 4 (1 ∷ 5 ∷ 2 ∷ []) [] (full lru)).0 ≡ (1, 10) ∷ (2, 20) ∷ []
unfolding program
mget_collects = refl

full-order :
    (policy : EvictionPolicy) (k : ℕ)
    → Keys.has ℕ_discrete (full policy).lru k ≡ Keys.has ℕ_discrete (full policy).store k
unfolding Dict.get
full-order policy k = ground arith

full-IsValid : (policy : EvictionPolicy) → IsValid ℕ_discrete 0 (full policy)
unfolding program
full-IsValid policy = record {
  distinct = (refl, (refl, tt));
  order = full-order policy;
  named = refl;
  room = omega arith;
  bounded = omega arith;
}

victim_key-IsVictim_example :
    (k : ℕ) × (victim_key ℕ_discrete 0 (full lfu) lfu ≡ some k)
    × IsVictim ℕ_discrete 0 (full lfu) lfu k
    × (Keys.has ℕ_discrete (full lfu).store k ≡ true)
victim_key-IsVictim_example =
    victim_key-IsVictim ℕ_discrete 0 (full lfu) lfu (full-IsValid lfu) (omega arith)

set-IsValid_example :
    (c : Cache ℕ ℕ) × (Methods.set ℕ_discrete 0 4 3 30 none (full fifo) ≡ some c)
    × IsValid ℕ_discrete 0 c
set-IsValid_example =
    set-IsValid ℕ_discrete 0 4 3 30 none (full fifo) (full-IsValid fifo) (omega arith)

set_result : Methods.set ℕ_discrete 0 4 3 30 none (full lru) ≡ some (after_set lru)
unfolding program
set_result = refl

get-set_example : (Methods.get ℕ_discrete 0 9 3 (after_set lru)).0 ≡ some 30
get-set_example =
    get-set ℕ_discrete 0 4 9 3 30 none (full lru) (after_set lru) (full-IsValid lru) (omega arith)
      set_result (inr (omega arith))

full-Holds : Holds ℕ_discrete 0 (full lru) 1 10 (some 9)
unfolding program
full-Holds = (entry 1 10 1, refl, refl, refl)

expired_at_10 : expired_by 10 (some 9) ≡ true
unfolding program
expired_at_10 = refl

-- the only key is the empty key, and there is room for one entry
abbrev stuck : Cache ℕ ℕ
stuck = record (full lru) {
  max_size = 1;
  store = (0, entry 0 10 1) ∷ [];
  lru = (0, tt) ∷ [];
  freq = (0, 1) ∷ [];
}

stuck-first_key : first_key stuck.lru ≡ some 0
unfolding program
stuck-first_key = refl

stuck-absent : Dict.get ℕ_discrete 3 stuck.store ≡ none
unfolding program
stuck-absent = refl

-- a second level that is a dict
abbrev dict_level : Level ℕ ℕ (Dict ℕ ℕ)
dict_level = record {
  get = λ key d. (Dict.get ℕ_discrete key d, d);
  set = λ key value ttl d. Dict.set ℕ_discrete key value d;
  delete = λ key d. Dict.remove ℕ_discrete key d;
  is_true = λ d. elim d [ [] ↦ false | p ∷ rest ↦ true ];
}

-- The first value never gets into a second level that is empty.
set_empty_l2 :
    Option.map {B = Option (Dict ℕ ℕ)}
      (λ m. m.l2)
      (MultiLevel.set dict_level ℕ_discrete 0 4 3 30 none none
        (record { l1 = full lru; l2 = some [] }))
    ≡ some (some [])
unfolding program MultiLevel.set MultiLevel.change_l2
set_empty_l2 = refl

get_promotes_example :
    (MultiLevel.get dict_level ℕ_discrete 0 4 3
        (record { l1 = full lru; l2 = some ((3, 30) ∷ []) })).0
      ≡ some 30
    × ((Methods.get ℕ_discrete 0 6 3
          (MultiLevel.get dict_level ℕ_discrete 0 4 3
            (record { l1 = full lru; l2 = some ((3, 30) ∷ []) })).1.l1).0
        ≡ some 30)
unfolding program
get_promotes_example =
    MultiLevel.get_promotes dict_level ℕ_discrete 0 4 6 3 30 (full lru) ((3, 30) ∷ [])
      (full-IsValid lru) (omega arith) refl refl refl refl
