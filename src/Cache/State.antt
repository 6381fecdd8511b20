-- ===== src/Cache/State.antt =====
-- The data of cache_framework.py. Times are ticks of the clock, and every call reads the clock
-- once. Keys are any type with a decidable equality; where a key is tested for truth, the empty
-- key is false. A listener gets the events in the order of `emitted`; it does not call back.
use assets_system.Prelude.Dict.{Dict}
use assets_system.Prelude.{
  ℕ, ◌-◌, Bool, false, Option, none, some, List, [], ◌∷◌, ◌++◌, ltb, if◌then◌else◌,
}

pub data EventType : Type 0 where
  get_hit get_miss set expire evict delete clear : EventType

pub record Event (K V : Type 0) : Type 0 where
  pub type : EventType
  pub key : Option K
  pub value : Option V

pub record CacheEntry (K V : Type 0) : Type 0 where
  pub key : K
  pub value : V
  pub created_at : ℕ
  pub last_access : ℕ
  pub access_count : ℕ
  pub expire_at : Option ℕ

pub data EvictionPolicy : Type 0 where
  lru lfu fifo : EvictionPolicy

-- `lru` is the OrderedDict, whose values are all None, and `freq` the counts for LFU.
pub record Cache (K V : Type 0) : Type 0 where
  pub max_size : ℕ
  pub default_ttl : Option ℕ
  pub policy : EvictionPolicy
  pub store : Dict K (CacheEntry K V)
  pub lru : Dict K (Unit {0})
  pub freq : Dict K ℕ
  pub emitted : List (Event K V)
  pub hits : ℕ
  pub misses : ℕ
  pub evictions : ℕ
  pub expirations : ℕ
  pub closed : Bool

unfoldable pub expired_by : ℕ → Option ℕ → Bool
expired_by now none = false
expired_by now (some t) = ltb t now

-- the property `ttl` of an entry
unfoldable pub remaining : ℕ → Option ℕ → Option ℕ
remaining now none = none
remaining now (some t) = some (if ltb now t then t - now else 0)

module _ {K V : Type 0} where
  unfoldable pub init : ℕ → Option ℕ → EvictionPolicy → Cache K V
  init max_size default_ttl policy = record {
    max_size = max_size;
    default_ttl = default_ttl;
    policy = policy;
    store = [];
    lru = [];
    freq = [];
    emitted = [];
    hits = 0;
    misses = 0;
    evictions = 0;
    expirations = 0;
    closed = false;
  }

  unfoldable pub is_expired : ℕ → CacheEntry K V → Bool
  unfolding expired_by
  is_expired now entry = expired_by now entry.expire_at

  abbrev pub event : EventType → Option K → Option V → Event K V
  event type key value = record { type = type; key = key; value = value }

  -- the listeners' view of `_emit`
  abbrev pub emit : Event K V → Cache K V → Cache K V
  emit e c = record c { emitted = c.emitted ++ e ∷ [] }
