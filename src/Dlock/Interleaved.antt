-- ===== src/Dlock/Interleaved.antt =====
-- Clients that call the servers of redlock_sim.py in any order, while one holds the lock.
use mathlib.Core.Path.{subst}
use assets_system.Prelude.Dict
use assets_system.Prelude.{
  ℕ, zero, suc, ◌+◌, ◌*◌, ◌-◌, ◌≤◌, ◌<◌, ◌≡◌, ◌≢◌, ◌∙◌, sym, refl, inl, inr, true, false, ◌&&◌,
  none, some, List, [], ◌∷◌, ltb, leb, if◌then◌else◌, ite, length, ap, arith, Bool-cases,
  Option-cases,
}
use assets_system.Dlock.Redlock.{
  FakeRedis, is_free, try_lock, lock_all, unlock, unlock_all, redlock,
}
use assets_system.Dlock.Quorum.{
  held_until, clock-lock_all, length-redlock, redlock_won, undone, redlock_blocked,
}

-- A call of a client: to lock or to unlock one server, or a whole attempt.
pub data Call (K O : Type 0) : Type 0 where
  tries : ℕ → ℕ → K → O → ℕ → Call K O
  unlocks : ℕ → K → O → Call K O
  attempts : ℕ → K → O → ℕ → ℕ → Call K O

-- A change of one server.
unfoldable pub at {ℓ} : {A : Type ℓ} → ℕ → (A → A) → List A → List A
at n f [] = []
at zero f (x ∷ xs) = f x ∷ xs
at (suc n) f (x ∷ xs) = x ∷ at n f xs

length-at {ℓ} : {A : Type ℓ} (n : ℕ) (f : A → A) (xs : List A) → length (at n f xs) ≡ length xs
unfolding at
length-at n f [] = refl
length-at zero f (x ∷ xs) = refl
length-at (suc n) f (x ∷ xs) = ap suc (length-at n f xs)

module _ {K O : Type 0} (dec : Discrete K) (dec_owner : Discrete O) where
  unfoldable pub call : Call K O → List (FakeRedis K O) → List (FakeRedis K O)
  unfolding at try_lock unlock redlock
  call (tries n now key owner ttl) nodes =
      at n (λ node. (try_lock dec now key owner ttl node).1) nodes
  call (unlocks n key owner) nodes = at n (unlock dec dec_owner key owner) nodes
  call (attempts clock key owner ttl quorum) nodes =
      (redlock dec dec_owner clock nodes key owner ttl quorum).1

  unfoldable pub calls : List (Call K O) → List (FakeRedis K O) → List (FakeRedis K O)
  unfolding call
  calls [] nodes = nodes
  calls (c ∷ cs) nodes = calls cs (call c nodes)

  -- The call ends by `until`, and only others than the owner unlock a server on their own.
  abbrev pub IsForeign : O → ℕ → Call K O → List (FakeRedis K O) → Type 0
  IsForeign owner until (tries n now key other ttl) nodes = now ≤ until
  IsForeign owner until (unlocks n key other) nodes = other ≢ owner
  IsForeign owner until (attempts clock key other ttl quorum) nodes =
      (redlock dec dec_owner clock nodes key other ttl quorum).2 ≤ until

  abbrev pub AreForeign : O → ℕ → List (Call K O) → List (FakeRedis K O) → Type 0
  AreForeign owner until [] nodes = Unit
  AreForeign owner until (c ∷ cs) nodes =
      IsForeign owner until c nodes × AreForeign owner until cs (call c nodes)

  module _ (owner : O) (until : ℕ) (key : K) where
    -- A lock of the owner that lasts until the time is still there.
    abbrev Keeps : FakeRedis K O → FakeRedis K O → Type 0
    Keeps a b =
        (lock : O × ℕ)
        → Dict.get dec key a.locks ≡ some lock
        → lock.0 ≡ owner
        → until ≤ lock.1
        → Dict.get dec key b.locks ≡ some lock

    -- The number of servers on which the owner has such a lock.
    abbrev held_by : List (FakeRedis K O) → ℕ
    held_by [] = 0
    held_by (node ∷ nodes) =
        let rest = held_by nodes in
        elim (Dict.get dec key node.locks) [
          | none ↦ rest
          | some lock ↦
              if ite (dec_owner lock.0 owner) true false && leb until lock.1 then rest + 1 else rest
        ]

    held_by-le :
        (a b : FakeRedis K O) (xs ys : List (FakeRedis K O))
        → Keeps a b
        → held_by xs ≤ held_by ys
        → held_by (a ∷ xs) ≤ held_by (b ∷ ys)
    held_by-le a b xs ys keeps h = elim (Option-cases (Dict.get dec key a.locks)) [
      | inl e ↦ rw (e, held_by) (ground (arith, h))
      | inr (lock, e) ↦ elim (dec_owner lock.0 owner) [
        | yes p ↦ elim (Bool-cases (leb until lock.1)) [
          | inl l ↦ let kept = keeps lock e p (ground (arith, l)) in ground (arith, e, kept, h, p)
          | inr l ↦ ground (arith, e, h, l)
        ]
        | no p ↦ ground (arith, e, h, p)
      ]
    ]

    held_by-at :
        (n : ℕ) (f : FakeRedis K O → FakeRedis K O) (nodes : List (FakeRedis K O))
        → ((node : FakeRedis K O) → Keeps node (f node))
        → held_by nodes ≤ held_by (at n f nodes)
    unfolding at
    held_by-at n f [] h = omega arith
    held_by-at zero f (x ∷ xs) h = held_by-le x (f x) xs xs (h x) (omega arith)
    held_by-at (suc n) f (x ∷ xs) h =
        held_by-le x x xs (at n f xs) (λ lock e p l. e) (held_by-at n f xs h)

    -- A key that is held is not free.
    not_free :
        (now : ℕ) (key' : K) (node : FakeRedis K O) (lock : O × ℕ)
        → now ≤ until
        → key' ≡ key
        → Dict.get dec key node.locks ≡ some lock
        → until ≤ lock.1
        → is_free dec now key' node ≡ false
    unfolding is_free
    not_free now key' node lock h same e l =
        let e' = subst (λ k. Dict.get dec k node.locks ≡ some lock) (sym same) e in
        rw (e', is_free) (ground (arith, h, l))

    Keeps-try_lock :
        (now ttl : ℕ) (key' : K) (other : O)
        → now ≤ until
        → (node : FakeRedis K O) → Keeps node (try_lock dec now key' other ttl node).1
    unfolding try_lock
    Keeps-try_lock now ttl key' other h node lock e p l = elim (dec key' key) [
      | yes same ↦ let busy = not_free now key' node lock h same e l in rw busy e
      | no differs ↦
          ground (arith, e, Dict.get-set_ne dec key' key (other, now + ttl) node.locks differs)
    ]

    get-unlock_ne :
        (key' : K) (other : O) (node : FakeRedis K O)
        → key' ≢ key
        → Dict.get dec key (unlock dec dec_owner key' other node).locks
          ≡ Dict.get dec key node.locks
    unfolding unlock
    get-unlock_ne key' other node differs =
        ground (arith, Dict.get-remove dec key' key node.locks, differs)

    Keeps-unlock :
        (key' : K) (other : O)
        → other ≢ owner
        → (node : FakeRedis K O) → Keeps node (unlock dec dec_owner key' other node)
    unfolding unlock
    Keeps-unlock key' other h node lock e p l = elim (dec key' key) [
      | yes same ↦
          let e' = subst (λ k. Dict.get dec k node.locks ≡ some lock) (sym same) e in
          rw (e', unlock) (ground (arith, e, p, h))
      | no differs ↦ get-unlock_ne key' other node differs ∙ e
    ]

    Keeps-undone :
        (now ttl : ℕ) (key' : K) (other : O) (node : FakeRedis K O)
        → now ≤ until
        → Keeps node (undone dec dec_owner now ttl key' other node)
    unfolding try_lock
    Keeps-undone now ttl key' other node h lock e p l = elim (dec key' key) [
      | yes same ↦ let busy = not_free now key' node lock h same e l in rw busy e
      | no differs ↦ elim (Bool-cases (is_free dec now key' node)) [
        | inl b ↦ rw b (
            get-unlock_ne key' other _ differs
            ∙ Dict.get-set_ne dec key' key (other, now + ttl) node.locks differs
            ∙ e)
        | inr b ↦ rw b e
      ]
    ]

    held_by-lock_all :
        (key' : K) (other : O) (ttl clock : ℕ) (nodes : List (FakeRedis K O))
        → (lock_all dec key' other ttl clock nodes).clock ≤ until
        → held_by nodes ≤ held_by (lock_all dec key' other ttl clock nodes).nodes
    unfolding lock_all
    held_by-lock_all key' other ttl clock [] h = omega arith
    held_by-lock_all key' other ttl clock (node ∷ nodes) h =
        let now = clock + node.latency in
        let started = clock-lock_all dec key' other ttl now nodes in
        held_by-le node (try_lock dec now key' other ttl node).1 nodes _
          (Keeps-try_lock now ttl key' other (omega (arith, h, started)) node)
          (held_by-lock_all key' other ttl now nodes h)

    held_by-unlock_all :
        (key' : K) (other : O) (ttl clock : ℕ) (nodes : List (FakeRedis K O))
        → (lock_all dec key' other ttl clock nodes).clock ≤ until
        → held_by nodes
          ≤ held_by (
              unlock_all dec dec_owner key' other
                (lock_all dec key' other ttl clock nodes).locked_nodes
                (lock_all dec key' other ttl clock nodes).nodes)
    unfolding lock_all unlock_all
    held_by-unlock_all key' other ttl clock [] h = omega arith
    held_by-unlock_all key' other ttl clock (node ∷ nodes) h =
        let now = clock + node.latency in
        let started = clock-lock_all dec key' other ttl now nodes in
        held_by-le node (undone dec dec_owner now ttl key' other node) nodes _
          (Keeps-undone now ttl key' other node (omega (arith, h, started)))
          (held_by-unlock_all key' other ttl now nodes h)

    held_by-redlock :
        (clock ttl quorum : ℕ) (key' : K) (other : O) (nodes : List (FakeRedis K O))
        → (redlock dec dec_owner clock nodes key' other ttl quorum).2 ≤ until
        → held_by nodes ≤ held_by (redlock dec dec_owner clock nodes key' other ttl quorum).1
    unfolding redlock
    held_by-redlock clock ttl quorum key' other nodes h =
        let l = lock_all dec key' other ttl clock nodes in
        elim (Bool-cases (leb quorum l.successes && ltb (l.clock - clock) ttl)) [
          | inl b ↦ rw b (held_by-lock_all key' other ttl clock nodes (ground (arith, h, b)))
          | inr b ↦ rw b (held_by-unlock_all key' other ttl clock nodes (ground (arith, h, b)))
        ]

    held_by-call :
        (c : Call K O) (nodes : List (FakeRedis K O))
        → IsForeign owner until c nodes
        → held_by nodes ≤ held_by (call c nodes)
    unfolding call
    held_by-call (tries n now key' other ttl) nodes h =
        held_by-at n (λ node. (try_lock dec now key' other ttl node).1) nodes
          (Keeps-try_lock now ttl key' other h)
    held_by-call (unlocks n key' other) nodes h =
        held_by-at n (unlock dec dec_owner key' other) nodes (Keeps-unlock key' other h)
    held_by-call (attempts clock key' other ttl quorum) nodes h =
        held_by-redlock clock ttl quorum key' other nodes h

    held_by-calls :
        (cs : List (Call K O)) (nodes : List (FakeRedis K O))
        → AreForeign owner until cs nodes
        → held_by nodes ≤ held_by (calls cs nodes)
    unfolding calls
    held_by-calls [] nodes h = omega arith
    held_by-calls (c ∷ cs) nodes (h, g) =
        omega (arith, held_by-call c nodes h, held_by-calls cs (call c nodes) g)

    held_by-le-held_until :
        (nodes : List (FakeRedis K O)) → held_by nodes ≤ held_until dec until key nodes
    held_by-le-held_until [] = omega arith
    held_by-le-held_until (node ∷ nodes) = ground (arith, held_by-le-held_until nodes)

    -- What was locked in a loop that ended is held by the owner.
    successes-held_by :
        (ttl start clock : ℕ) (nodes : List (FakeRedis K O))
        → start ≤ clock
        → until ≡ start + ttl
        → (lock_all dec key owner ttl clock nodes).successes
          ≤ held_by (lock_all dec key owner ttl clock nodes).nodes
    unfolding lock_all try_lock
    successes-held_by ttl start clock [] h u = omega arith
    successes-held_by ttl start clock (node ∷ nodes) h u =
        let now = clock + node.latency in
        let rest = successes-held_by ttl start now nodes (omega (arith, h)) u in
        ground (arith, rest, h, u, Dict.get-set_self dec key (owner, now + ttl) node.locks)

  length-call : (c : Call K O) (nodes : List (FakeRedis K O)) → length (call c nodes) ≡ length nodes
  unfolding call
  length-call (tries n now key other ttl) nodes = length-at n _ nodes
  length-call (unlocks n key other) nodes = length-at n _ nodes
  length-call (attempts clock key other ttl quorum) nodes =
      length-redlock dec dec_owner clock ttl quorum key other nodes

  length-calls :
      (cs : List (Call K O)) (nodes : List (FakeRedis K O)) → length (calls cs nodes) ≡ length nodes
  unfolding calls
  length-calls [] nodes = refl
  length-calls (c ∷ cs) nodes = length-calls cs (call c nodes) ∙ length-call c nodes

  -- A client that got the lock on a majority quorum of the servers keeps it for the lifetime, counted
  -- from the start of its attempt: whatever calls are made on the servers in between, those of other
  -- attempts one by one in any order and whole attempts, by any clients and on any keys, an attempt by
  -- any client on the key fails. The calls and the attempts end before the lifetime does, and the
  -- calls to unlock a server that are made on their own are not the owner's.
  pub redlock-calls :
      (clock later ttl ttl' quorum : ℕ) (key : K) (owner other : O) (nodes : List (FakeRedis K O))
      (cs : List (Call K O))
      → length nodes < 2 * quorum
      → (redlock dec dec_owner clock nodes key owner ttl quorum).0 ≡ true
      → AreForeign owner (clock + ttl) cs (redlock dec dec_owner clock nodes key owner ttl quorum).1
      → (let reached = calls cs (redlock dec dec_owner clock nodes key owner ttl quorum).1 in
          (redlock dec dec_owner later reached key other ttl' quorum).2 ≤ clock + ttl)
      → (let reached = calls cs (redlock dec dec_owner clock nodes key owner ttl quorum).1 in
          (redlock dec dec_owner later reached key other ttl' quorum).0 ≡ false)
  redlock-calls clock later ttl ttl' quorum key owner other nodes cs majority ok foreign ends =
      let nodes' = (redlock dec dec_owner clock nodes key owner ttl quorum).1 in
      let (same, won) = redlock_won dec dec_owner clock ttl quorum key owner nodes ok in
      let first : quorum ≤ held_by owner (clock + ttl) key nodes' = rw same (
        omega (
          arith,
          won,
          successes-held_by owner (clock + ttl) key ttl clock clock nodes (omega arith) refl,
        )) in
      let held : quorum ≤ held_until dec (clock + ttl) key (calls cs nodes') = omega (
        arith,
        first,
        held_by-calls owner (clock + ttl) key cs nodes' foreign,
        held_by-le-held_until owner (clock + ttl) key (calls cs nodes'),
      ) in
      let size =
        length-calls cs nodes' ∙ length-redlock dec dec_owner clock ttl quorum key owner nodes in
      redlock_blocked dec dec_owner later ttl' quorum (clock + ttl) key other (calls cs nodes')
        (omega (arith, majority, size)) held ends
