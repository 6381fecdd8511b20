-- ===== src/Dlock/Tests.antt =====
-- The demos of dlock_lab with fixed times, and the theorems at their states. Clients are numbers.
use assets_system.Prelude.Dict
use assets_system.Prelude.{ℕ, ◌+◌, ◌≡◌, refl, true, false, none, List, [], ◌∷◌, arith, ℕ_discrete}
use assets_system.Dlock.FencingToken
use assets_system.Dlock.FencingToken.{Storage, Newest}
use assets_system.Dlock.RedisLock
use assets_system.Dlock.RedisLock.{Call, acquires, releases, watches, calls_foreign}
use assets_system.Dlock.Redlock
use assets_system.Dlock.Redlock.{FakeRedis, redlock}
use assets_system.Dlock.Interleaved
use assets_system.Dlock.Interleaved.{tries, unlocks, attempts, AreForeign, redlock-calls}

program : Unit {0}
unfolding FencingToken.init FencingToken.write FencingToken.read FencingToken.write_all
    RedisLock.is_free RedisLock.init RedisLock.acquire RedisLock.owned_by RedisLock.release
    RedisLock.watch_dog RedisLock.call RedisLock.calls Redlock.is_free Redlock.try_lock
    Redlock.lock_all Redlock.unlock Redlock.unlock_all redlock Interleaved.at Interleaved.call
    Interleaved.calls Dict.get Dict.set Dict.remove ℕ_discrete
program = tt

-- Value 1 is client A's, with token 1, and value 2 client B's, with token 2.
abbrev arrivals : List (ℕ × ℕ)
arrivals = (2, 2) ∷ (1, 1) ∷ []

abbrev empty : Storage ℕ
empty = record { stored = 0; max_token = 0 }

fencing_demo : FencingToken.write_all arrivals empty ≡ record { stored = 2; max_token = 2 }
unfolding program
fencing_demo = refl

abbrev lock : RedisLock.RedisLock ℕ
lock = record { ttl = 5; owner = none; expires_at = 0 }

acquired : (RedisLock.acquire ℕ_discrete 1 1 0 lock).0 ≡ true
unfolding program
acquired = refl

-- Client 1 tries at time 4 and to release, client 0 tries again at time 6.
abbrev others : List (Call ℕ_discrete)
others = acquires 4 4 1 ∷ releases 1 ∷ acquires 6 6 0 ∷ []

calls_foreign_example :
    RedisLock.calls ℕ_discrete others (RedisLock.acquire ℕ_discrete 1 1 0 lock).1
    ≡ (RedisLock.acquire ℕ_discrete 1 1 0 lock).1
calls_foreign_example =
    calls_foreign ℕ_discrete 1 1 0 others lock acquired
      (omega arith, (omega arith, (omega arith, tt)))

-- After the lifetime client 1 gets the lock.
acquire_expired :
    (RedisLock.acquire ℕ_discrete 7 7 1 (RedisLock.acquire ℕ_discrete 1 1 0 lock).1).0 ≡ true
unfolding program
acquire_expired = refl

abbrev servers : List (FakeRedis ℕ ℕ)
servers =
    record { latency = 1; locks = [] }
    ∷ record { latency = 2; locks = [] }
    ∷ record { latency = 1; locks = [] }
    ∷ []

redlock_first : (redlock ℕ_discrete ℕ_discrete 0 servers 7 0 10 2).0 ≡ true
unfolding program
redlock_first = refl

-- Client 1 tries one server and gives up, client 2 makes a whole attempt and client 1 another try.
abbrev between : List (Interleaved.Call ℕ ℕ)
between = tries 0 5 7 1 10 ∷ unlocks 0 7 1 ∷ attempts 5 7 2 10 2 ∷ tries 2 10 7 1 10 ∷ []

between-AreForeign :
    AreForeign ℕ_discrete ℕ_discrete 0
      (0 + 10)
      between
      (redlock ℕ_discrete ℕ_discrete 0 servers 7 0 10 2).1
unfolding program
between-AreForeign = (omega arith, (ground arith, (omega arith, (omega arith, tt))))

redlock-calls_example :
    (redlock ℕ_discrete ℕ_discrete 6
      (Interleaved.calls ℕ_discrete ℕ_discrete between
        (redlock ℕ_discrete ℕ_discrete 0 servers 7 0 10 2).1)
      7
      1
      10
      2).0
    ≡ false
unfolding program
redlock-calls_example =
    redlock-calls ℕ_discrete ℕ_discrete 0 6 10 10 2 7 0 1 servers between (omega arith)
      redlock_first between-AreForeign (omega arith)

-- The lifetime is over before all servers have answered.
redlock_slow : (redlock ℕ_discrete ℕ_discrete 0 servers 7 0 3 2).0 ≡ false
unfolding program
redlock_slow = refl
