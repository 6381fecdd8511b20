-- ===== src/Dlock/RedisLock.antt =====
-- redis_lock.py: a lock with an owner and a lifetime.
use mathlib.Core.Path.{subst}
use assets_system.Prelude.{
  ℕ, ◌+◌, ◌≤◌, ◌≡◌, ◌≢◌, sym, refl, inl, inr, Bool, true, false, Option, none, some, List, [], ◌∷◌,
  ltb, if◌then◌else◌, ite, arith, All, Bool-cases,
}

pub record RedisLock (K : Type 0) : Type 0 where
  pub ttl : ℕ
  pub owner : Option K
  pub expires_at : ℕ

-- `self.owner is None or time.time() > self.expires_at`
unfoldable pub is_free : {K : Type 0} → ℕ → RedisLock K → Bool
is_free now lock = elim lock.owner [ none ↦ true | some k ↦ ltb lock.expires_at now ]

module _ {K : Type 0} (dec : Discrete K) where
  unfoldable pub init : ℕ → RedisLock K
  init ttl = record { ttl = ttl; owner = none; expires_at = 0 }

  -- the clock is read for the test, and again for the lifetime
  unfoldable pub acquire : ℕ → ℕ → K → RedisLock K → Bool × RedisLock K
  unfolding is_free
  acquire now later client lock =
      if is_free now lock
      then (true, record lock { owner = some client; expires_at = later + lock.ttl })
      else (false, lock)

  -- `self.owner == client`
  unfoldable pub owned_by : K → Option K → Bool
  owned_by client none = false
  owned_by client (some k) = ite (dec k client) true false

  unfoldable pub release : K → RedisLock K → Bool × RedisLock K
  unfolding owned_by
  release client lock =
      if owned_by client lock.owner
      then (true, record lock { owner = none; expires_at = 0 })
      else (false, lock)

  -- a round of `watch_dog`: whether the thread goes on
  unfoldable pub watch_dog : ℕ → ℕ → K → RedisLock K → Bool × RedisLock K
  unfolding owned_by
  watch_dog now extend client lock =
      if owned_by client lock.owner
      then (true, record lock { expires_at = now + extend })
      else (false, lock)

  -- A call of another thread.
  pub data Call : Type 0 where
    acquires : ℕ → ℕ → K → Call
    releases : K → Call
    watches : ℕ → ℕ → K → Call

  unfoldable pub call : Call → RedisLock K → Bool × RedisLock K
  unfolding acquire release watch_dog
  call (acquires now later client) lock = acquire now later client lock
  call (releases client) lock = release client lock
  call (watches now extend client) lock = watch_dog now extend client lock

  unfoldable pub calls : List Call → RedisLock K → RedisLock K
  unfolding call
  calls [] lock = lock
  calls (c ∷ cs) lock = calls cs (call c lock).1

  -- The call is made by the end of the lifetime, and is not one of the owner but to acquire.
  abbrev pub IsForeign : K → ℕ → Call → Type 0
  IsForeign owner until (acquires now later client) = now ≤ until
  IsForeign owner until (releases client) = client ≢ owner
  IsForeign owner until (watches now extend client) = client ≢ owner

  call_foreign :
      (owner : K) (lock : RedisLock K) (c : Call)
      → lock.owner ≡ some owner
      → IsForeign owner lock.expires_at c
      → call c lock ≡ (false, lock)
  unfolding call acquire release watch_dog is_free owned_by
  call_foreign owner lock (acquires now later client) h f = ground (arith, h, f)
  call_foreign owner lock (releases client) h f = ground (arith, h, f)
  call_foreign owner lock (watches now extend client) h f = ground (arith, h, f)

  calls_held :
      (owner : K) (until : ℕ) (cs : List Call) (lock : RedisLock K)
      → lock.owner ≡ some owner
      → lock.expires_at ≡ until
      → All (IsForeign owner until) cs
      → calls cs lock ≡ lock
  unfolding calls
  calls_held owner until [] lock h e f = refl
  calls_held owner until (c ∷ cs) lock h e (f, g) =
      let same = call_foreign owner lock c h (subst (λ t. IsForeign owner t c) (sym e) f) in
      rw same (calls_held owner until cs lock h e g)

  -- While a lifetime lasts nobody else gets the lock or changes it: after a client has acquired it,
  -- any calls of others to release or renew it, and any calls to acquire it by the end of the
  -- lifetime, leave the lock as it is.
  pub calls_foreign :
      (now later : ℕ) (owner : K) (cs : List Call) (lock : RedisLock K)
      → (acquire now later owner lock).0 ≡ true
      → All (IsForeign owner (later + lock.ttl)) cs
      → calls cs (acquire now later owner lock).1 ≡ (acquire now later owner lock).1
  unfolding calls acquire
  calls_foreign now later owner cs lock h f = elim (Bool-cases (is_free now lock)) [
    | inl b ↦ rw b (calls_held owner (later + lock.ttl) cs _ refl refl f)
    | inr b ↦ absurd (ground (arith, h, b))
  ]
