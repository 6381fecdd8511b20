-- ===== src/Cache/MultiLevel.antt =====
-- cache_framework.py: `get_or_none`, `stats`, the length, the decorator `cached`, and MultiLevelCache.
-- The second level is any object with `get`, `set` and `delete`, which are parameters, as its truth
-- is. Stored values are not None, and `none` is the None or the KeyError of a read.
use mathlib.Core.Option.{some-injective}
use assets_system.Prelude.{
  ℕ, ◌+◌, ◌≡◌, ◌≢◌, refl, sym, ap, ◌∙◌, Bool, true, false, Option, none, some, if◌then◌else◌,
  length, inl, inr, Option-cases,
}
use assets_system.Cache.State.{Cache, expired_by}
use assets_system.Cache.Methods
use assets_system.Cache.Methods.{expiry, ttl_or_default}
use assets_system.Cache.Invariant.{IsValid}
use assets_system.Cache.Validity.{set-IsValid, methods-IsValid}
use assets_system.Cache.Reads.{get-set_live}

-- The dictionary of `stats`; `hit_rate` is the quotient of `hits` and `total`, or 0 where `total` is.
pub record Stats : Type 0 where
  pub size : ℕ
  pub max_size : ℕ
  pub hits : ℕ
  pub misses : ℕ
  pub total : ℕ
  pub evictions : ℕ
  pub expirations : ℕ

module _ {K V : Type 0} where
  unfoldable pub stats : Cache K V → Stats
  stats c = record {
    size = length c.store;
    max_size = c.max_size;
    hits = c.hits;
    misses = c.misses;
    total = c.hits + c.misses;
    evictions = c.evictions;
    expirations = c.expirations;
  }

  unfoldable pub len : Cache K V → ℕ
  len c = length c.store

module _ {K V : Type 0} (dec : Discrete K) (empty_key : K) where
  unfoldable pub get_or_none : ℕ → K → Cache K V → Option V × Cache K V
  get_or_none now key c = Methods.get dec empty_key now key c

  -- the wrapper of `cached` for a call whose key is `cache_key` and whose function returns `result`
  unfoldable pub cached : ℕ → K → V → Option ℕ → Cache K V → Option (V × Cache K V)
  cached now cache_key result ttl c =
      let (found, read) = Methods.get dec empty_key now cache_key c in
      elim found [
        | some value ↦ some (value, read)
        | none ↦ elim (Methods.set dec empty_key now cache_key result ttl read) [
          | none ↦ none
          | some written ↦ some (result, written)
        ]
      ]

-- What the second level does.
pub record Level (K V S : Type 0) : Type 0 where
  pub get : K → S → Option V × S
  pub set : K → V → Option ℕ → S → S
  pub delete : K → S → S
  pub is_true : S → Bool

pub record MultiLevelCache (K V S : Type 0) : Type 0 where
  pub l1 : Cache K V
  pub l2 : Option S

module _ {K V S : Type 0} (level : Level K V S) (dec : Discrete K) (empty_key : K) where
  unfoldable pub init : Cache K V → Option S → MultiLevelCache K V S
  init l1 l2 = record { l1 = l1; l2 = l2 }

  -- the part of `get` for a second level that is there and true
  unfoldable get_l2 : ℕ → K → S → MultiLevelCache K V S → Option V × MultiLevelCache K V S
  get_l2 now key l2 m =
      let (found, read) = level.get key l2 in
      elim found [
        | none ↦ (none, record m { l2 = some read })
        | some value ↦ elim (Methods.set dec empty_key now key value none m.l1) [
          | none ↦ (none, record m { l2 = some read })
          | some written ↦ (some value, record { l1 = written; l2 = some read })
        ]
      ]

  unfoldable get_below : ℕ → K → MultiLevelCache K V S → Option V × MultiLevelCache K V S
  unfolding get_l2
  get_below now key m = elim m.l2 [
    | none ↦ (none, m)
    | some l2 ↦ if level.is_true l2 then get_l2 now key l2 m else (none, m)
  ]

  unfoldable pub get : ℕ → K → MultiLevelCache K V S → Option V × MultiLevelCache K V S
  unfolding get_or_none get_below
  get now key m =
      let (found, read) = get_or_none dec empty_key now key m.l1 in
      elim found [
        | some value ↦ (some value, record m { l1 = read })
        | none ↦ get_below now key (record m { l1 = read })
      ]

  -- a change of the second level, if it is there and true
  unfoldable pub change_l2 : (S → S) → Option S → Option S
  change_l2 change none = none
  change_l2 change (some l2) = some (if level.is_true l2 then change l2 else l2)

  unfoldable pub set :
      ℕ → K → V → Option ℕ → Option ℕ → MultiLevelCache K V S → Option (MultiLevelCache K V S)
  unfolding change_l2
  set now key value l1_ttl l2_ttl m = elim (Methods.set dec empty_key now key value l1_ttl m.l1) [
    | none ↦ none
    | some l1 ↦ some (record { l1 = l1; l2 = change_l2 (level.set key value l2_ttl) m.l2 })
  ]

  unfoldable pub delete : K → MultiLevelCache K V S → MultiLevelCache K V S
  unfolding change_l2
  delete key m = record {
    l1 = (Methods.delete dec empty_key key m.l1).1;
    l2 = change_l2 (level.delete key) m.l2;
  }

module _ {K V S : Type 0} (level : Level K V S) (dec : Discrete K) (empty_key : K) where
  -- A read of a key that is not empty, which misses a valid first level and hits a second one that is
  -- true, returns its value and puts it into the first level, where it is read as long as the default
  -- lifetime has not passed.
  pub get_promotes :
      (now later : ℕ) (key : K) (value : V) (l1 : Cache K V) (l2 : S)
      → IsValid dec empty_key l1
      → key ≢ empty_key
      → (Methods.get dec empty_key now key l1).0 ≡ none
      → level.is_true l2 ≡ true
      → (level.get key l2).0 ≡ some value
      → expired_by later
          (expiry now (ttl_or_default dec empty_key none (Methods.get dec empty_key now key l1).1))
        ≡ false
      → (let (found, m) = get level dec empty_key now key (record { l1 = l1; l2 = some l2 }) in
          (found ≡ some value) × ((Methods.get dec empty_key later key m.l1).0 ≡ some value))
  unfolding get get_or_none get_below get_l2
  get_promotes now later key value l1 l2 valid ne miss truth hit live =
      let read = (Methods.get dec empty_key now key l1).1 in
      let valid' = (methods-IsValid dec empty_key now key 0 l1 valid).0 in
      let (written, e, valid'') = set-IsValid dec empty_key now key value none read valid' ne in
      rw (miss, truth, hit, e, get, get_or_none, get_below, get_l2)
        (refl, get-set_live dec empty_key now later key value none read written valid' ne e live)

  -- A write and a delete leave a second level that is false as it is, such as an empty one that has a
  -- length.
  set_false_l2 :
      (now : ℕ) (key : K) (value : V) (l1_ttl l2_ttl : Option ℕ) (m n : MultiLevelCache K V S)
      (l2 : S)
      → m.l2 ≡ some l2
      → level.is_true l2 ≡ false
      → set level dec empty_key now key value l1_ttl l2_ttl m ≡ some n
      → (n.l2 ≡ some l2) × ((delete level dec empty_key key m).l2 ≡ some l2)
  unfolding set delete change_l2
  set_false_l2 now key value l1_ttl l2_ttl m n l2 h f e =
      elim (Option-cases (Methods.set dec empty_key now key value l1_ttl m.l1)) [
        | inl k ↦ let bad : none ≡ some n = sym (rw (k, set) refl) ∙ e in cc
        | inr (l1, k) ↦
            let same : some (record {
              l1 = l1;
              l2 = change_l2 level dec empty_key (level.set key value l2_ttl) m.l2;
            })
                ≡ some n =
              sym (rw (k, set) refl) ∙ e in
            (sym (ap (λ x. x.l2) (some-injective _ _ same)) ∙ rw (h, f) refl, rw (h, f) refl)
      ]
