-- ===== src/Dlock/Quorum.antt =====
-- A quorum of servers that hold a key (redlock_sim.py), and what a failed attempt leaves.
use mathlib.Core.Path.{subst}
use assets_system.Prelude.Dict
use assets_system.Prelude.Dict.{Dict}
use assets_system.Prelude.{
  ℕ, suc, ◌+◌, ◌*◌, ◌-◌, ◌≤◌, ◌<◌, ◌≡◌, ap, refl, ◌⊎◌, inl, inr, true, false, ◌&&◌, none, some,
  List, [], ◌∷◌, ltb, leb, if◌then◌else◌, length, arith, Bool-cases,
}
use assets_system.Dlock.Redlock.{
  FakeRedis, is_free, try_lock, lock_all, unlock, unlock_all, redlock,
}

module _ {ℓ} {K O : Type ℓ} (dec : Discrete K) where
  -- The number of servers on which the key is locked until the time or later.
  abbrev pub held_until : ℕ → K → List (FakeRedis K O) → ℕ
  held_until time key [] = 0
  held_until time key (node ∷ nodes) =
      let rest = held_until time key nodes in
      elim (Dict.get dec key node.locks) [
        | none ↦ rest
        | some lock ↦ if leb time lock.1 then rest + 1 else rest
      ]

  pub clock-lock_all :
      (key : K) (owner : O) (ttl clock : ℕ) (nodes : List (FakeRedis K O))
      → clock ≤ (lock_all dec key owner ttl clock nodes).clock
  unfolding lock_all
  clock-lock_all key owner ttl clock [] = omega arith
  clock-lock_all key owner ttl clock (node ∷ nodes) =
      omega (arith, clock-lock_all key owner ttl (clock + node.latency) nodes)

  -- What was locked is held for the whole lifetime from the start of the loop.
  successes-held_until :
      (key : K) (owner : O) (ttl start clock : ℕ) (nodes : List (FakeRedis K O))
      → start ≤ clock
      → (lock_all dec key owner ttl clock nodes).successes
        ≤ held_until (start + ttl) key (lock_all dec key owner ttl clock nodes).nodes
  unfolding lock_all try_lock
  successes-held_until key owner ttl start clock [] h = omega arith
  successes-held_until key owner ttl start clock (node ∷ nodes) h =
      let rest =
        successes-held_until key owner ttl start (clock + node.latency) nodes (omega (arith, h)) in
      ground
        (arith, rest, h, Dict.get-set_self dec key (owner, clock + node.latency + ttl) node.locks)

  -- What is held until the loop is over cannot be locked.
  successes-free :
      (key : K) (owner : O) (ttl until clock : ℕ) (nodes : List (FakeRedis K O))
      → (lock_all dec key owner ttl clock nodes).clock ≤ until
      → (lock_all dec key owner ttl clock nodes).successes + held_until until key nodes
        ≤ length nodes
  unfolding lock_all try_lock is_free
  successes-free key owner ttl until clock [] h = omega arith
  successes-free key owner ttl until clock (node ∷ nodes) h =
      let rest = successes-free key owner ttl until (clock + node.latency) nodes h in
      ground (arith, rest, h, clock-lock_all key owner ttl (clock + node.latency) nodes)

  pub length-lock_all :
      (key : K) (owner : O) (ttl clock : ℕ) (nodes : List (FakeRedis K O))
      → length (lock_all dec key owner ttl clock nodes).nodes ≡ length nodes
  unfolding lock_all
  length-lock_all key owner ttl clock [] = refl
  length-lock_all key owner ttl clock (node ∷ nodes) =
      ap suc (length-lock_all key owner ttl (clock + node.latency) nodes)

  held_until-le :
      (time : ℕ) (key : K) (a b : FakeRedis K O) (xs ys : List (FakeRedis K O))
      → (Dict.get dec key a.locks ≡ Dict.get dec key b.locks) ⊎ (Dict.get dec key a.locks ≡ none)
      → held_until time key xs ≤ held_until time key ys
      → held_until time key (a ∷ xs) ≤ held_until time key (b ∷ ys)
  held_until-le time key a b xs ys (inl e) h = ground (arith, e, h)
  held_until-le time key a b xs ys (inr e) h = ground (arith, e, h)

  module _ (dec_owner : Discrete O) where
    unlock-try_lock :
        (now ttl : ℕ) (key : K) (owner : O) (node : FakeRedis K O)
        → is_free dec now key node ≡ true
        → Dict.get dec key
            (unlock dec dec_owner key owner (try_lock dec now key owner ttl node).1).locks
          ≡ none
    unfolding try_lock unlock
    unlock-try_lock now ttl key owner node free =
        let set = Dict.get-set_self dec key (owner, now + ttl) node.locks in
        let removed =
          Dict.get-remove dec key key (Dict.set dec key (owner, now + ttl) node.locks) in
        ground (arith, free, set, removed)

    -- a server after an attempt that failed
    abbrev pub undone : ℕ → ℕ → K → O → FakeRedis K O → FakeRedis K O
    undone now ttl key owner node =
        let (ok, node') = try_lock dec now key owner ttl node in
        if ok then unlock dec dec_owner key owner node' else node'

    held_until-unlock_all :
        (time clock ttl : ℕ) (key : K) (owner : O) (nodes : List (FakeRedis K O))
        → held_until time key (
            unlock_all dec dec_owner key owner
              (lock_all dec key owner ttl clock nodes).locked_nodes
              (lock_all dec key owner ttl clock nodes).nodes)
          ≤ held_until time key nodes
    unfolding lock_all unlock_all try_lock
    held_until-unlock_all time clock ttl key owner [] = omega arith
    held_until-unlock_all time clock ttl key owner (node ∷ nodes) =
        let now = clock + node.latency in
        let rest = held_until-unlock_all time now ttl key owner nodes in
        elim (Bool-cases (is_free dec now key node)) [
          | inl free ↦
              held_until-le time key (undone now ttl key owner node) node _ nodes
                (inr (ground (arith, free, unlock-try_lock now ttl key owner node free))) rest
          | inr busy ↦
              held_until-le time key (undone now ttl key owner node) node _ nodes (inl (rw busy))
                rest
        ]

    pub redlock_won :
        (clock ttl quorum : ℕ) (key : K) (owner : O) (nodes : List (FakeRedis K O))
        → (redlock dec dec_owner clock nodes key owner ttl quorum).0 ≡ true
        → ((redlock dec dec_owner clock nodes key owner ttl quorum).1
            ≡ (lock_all dec key owner ttl clock nodes).nodes)
          × (quorum ≤ (lock_all dec key owner ttl clock nodes).successes)
    unfolding redlock
    redlock_won clock ttl quorum key owner nodes ok =
        let l = lock_all dec key owner ttl clock nodes in
        elim (Bool-cases (leb quorum l.successes && ltb (l.clock - clock) ttl)) [
          | inl b ↦ rw b (refl, ground (arith, b))
          | inr b ↦ absurd (ground (arith, ok, b))
        ]

    redlock_lost :
        (clock ttl quorum : ℕ) (key : K) (owner : O) (nodes : List (FakeRedis K O))
        → (lock_all dec key owner ttl clock nodes).successes < quorum
        → (redlock dec dec_owner clock nodes key owner ttl quorum).0 ≡ false
    unfolding redlock
    redlock_lost clock ttl quorum key owner nodes few = ground (arith, few)

    pub clock-redlock :
        (clock ttl quorum : ℕ) (key : K) (owner : O) (nodes : List (FakeRedis K O))
        → (redlock dec dec_owner clock nodes key owner ttl quorum).2
          ≡ (lock_all dec key owner ttl clock nodes).clock
    unfolding redlock
    clock-redlock clock ttl quorum key owner nodes = ground arith

    length-unlock_all :
        (key : K) (owner : O) (ttl clock : ℕ) (nodes : List (FakeRedis K O))
        → length (
            unlock_all dec dec_owner key owner
              (lock_all dec key owner ttl clock nodes).locked_nodes
              (lock_all dec key owner ttl clock nodes).nodes)
          ≡ length nodes
    unfolding lock_all unlock_all
    length-unlock_all key owner ttl clock [] = refl
    length-unlock_all key owner ttl clock (node ∷ nodes) =
        ap suc (length-unlock_all key owner ttl (clock + node.latency) nodes)

    pub length-redlock :
        (clock ttl quorum : ℕ) (key : K) (owner : O) (nodes : List (FakeRedis K O))
        → length (redlock dec dec_owner clock nodes key owner ttl quorum).1 ≡ length nodes
    unfolding redlock
    length-redlock clock ttl quorum key owner nodes = ground (
      arith,
      length-lock_all key owner ttl clock nodes,
      length-unlock_all key owner ttl clock nodes,
    )

    -- An attempt that ends while a majority is held fails.
    pub redlock_blocked :
        (later ttl quorum until : ℕ) (key : K) (owner : O) (nodes : List (FakeRedis K O))
        → length nodes < 2 * quorum
        → quorum ≤ held_until until key nodes
        → (redlock dec dec_owner later nodes key owner ttl quorum).2 ≤ until
        → (redlock dec dec_owner later nodes key owner ttl quorum).0 ≡ false
    redlock_blocked later ttl quorum until key owner nodes majority held ends =
        let ends' = subst (λ t. t ≤ until) (clock-redlock later ttl quorum key owner nodes) ends in
        let free = successes-free key owner ttl until later nodes ends' in
        redlock_lost later ttl quorum key owner nodes (omega (arith, free, held, majority))

    -- An attempt that fails adds no lock: at no time do more servers hold the key than without it.
    redlock_failed :
        (clock ttl quorum time : ℕ) (key : K) (owner : O) (nodes : List (FakeRedis K O))
        → (redlock dec dec_owner clock nodes key owner ttl quorum).0 ≡ false
        → held_until time key (redlock dec dec_owner clock nodes key owner ttl quorum).1
          ≤ held_until time key nodes
    unfolding redlock
    redlock_failed clock ttl quorum time key owner nodes failed =
        let l = lock_all dec key owner ttl clock nodes in
        elim (Bool-cases (leb quorum l.successes && ltb (l.clock - clock) ttl)) [
          | inl b ↦ absurd (ground (arith, failed, b))
          | inr b ↦ rw b (held_until-unlock_all time clock ttl key owner nodes)
        ]
