-- ===== src/Dlock/Redlock.antt =====
-- redlock_sim.py: a lock on a quorum of servers. `time.sleep` moves the clock by the latency of the
-- server, and nothing else takes time. The servers are different objects.
use assets_system.Prelude.Dict
use assets_system.Prelude.Dict.{Dict}
use assets_system.Prelude.{
  ℕ, ◌+◌, ◌-◌, Bool, true, false, ◌&&◌, none, some, List, [], ◌∷◌, ltb, leb, if◌then◌else◌, ite,
}

-- `locks` maps a key to the owner and the end of the lifetime.
pub record FakeRedis {ℓ} (K O : Type ℓ) : Type ℓ where
  pub latency : ℕ
  pub locks : Dict K (O × ℕ)

-- What the loop over the servers leaves: the number of successes, for each server whether it was
-- locked, the servers, and the clock.
pub record Locked {ℓ} (K O : Type ℓ) : Type ℓ where
  pub successes : ℕ
  pub locked_nodes : List Bool
  pub nodes : List (FakeRedis K O)
  pub clock : ℕ

module _ {ℓ} {K O : Type ℓ} (dec : Discrete K) where
  -- `key not in self.locks or now > self.locks[key][1]`
  unfoldable pub is_free : ℕ → K → FakeRedis K O → Bool
  is_free now key node = elim (Dict.get dec key node.locks) [
    | none ↦ true
    | some lock ↦ ltb lock.1 now
  ]

  -- the test and the store, at the time `now` after the sleep
  unfoldable pub try_lock : ℕ → K → O → ℕ → FakeRedis K O → Bool × FakeRedis K O
  unfolding is_free
  try_lock now key owner ttl node =
      if is_free now key node
      then (true, record node { locks = Dict.set dec key (owner, now + ttl) node.locks })
      else (false, node)

  -- the loop of `redlock` over the servers, from the time `clock`
  unfoldable pub lock_all : K → O → ℕ → ℕ → List (FakeRedis K O) → Locked K O
  unfolding try_lock
  lock_all key owner ttl clock [] = record {
    successes = 0;
    locked_nodes = [];
    nodes = [];
    clock = clock;
  }
  lock_all key owner ttl clock (node ∷ nodes) =
      let now = clock + node.latency in
      let (ok, node') = try_lock now key owner ttl node in
      let rest = lock_all key owner ttl now nodes in
      record {
        successes = if ok then rest.successes + 1 else rest.successes;
        locked_nodes = ok ∷ rest.locked_nodes;
        nodes = node' ∷ rest.nodes;
        clock = rest.clock;
      }

  module _ (dec_owner : Discrete O) where
    unfoldable pub unlock : K → O → FakeRedis K O → FakeRedis K O
    unlock key owner node = elim (Dict.get dec key node.locks) [
      | none ↦ node
      | some lock ↦
          ite (dec_owner lock.0 owner) (record node { locks = Dict.remove dec key node.locks }) node
    ]

    -- the loop over `locked_nodes`
    unfoldable pub unlock_all : K → O → List Bool → List (FakeRedis K O) → List (FakeRedis K O)
    unfolding unlock
    unlock_all key owner [] nodes = nodes
    unlock_all key owner (ok ∷ oks) [] = []
    unlock_all key owner (ok ∷ oks) (node ∷ nodes) =
        (if ok then unlock key owner node else node) ∷ unlock_all key owner oks nodes

    -- the result, the servers and the clock
    unfoldable pub redlock :
        ℕ → List (FakeRedis K O) → K → O → ℕ → ℕ → Bool × List (FakeRedis K O) × ℕ
    unfolding lock_all unlock_all
    redlock clock nodes key owner ttl quorum =
        let l = lock_all key owner ttl clock nodes in
        let elapsed = l.clock - clock in
        if leb quorum l.successes && ltb elapsed ttl
        then (true, l.nodes, l.clock)
        else (false, unlock_all key owner l.locked_nodes l.nodes, l.clock)
