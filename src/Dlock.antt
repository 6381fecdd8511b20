-- ===== src/Dlock.antt =====
-- The locks of dlock_lab: storage that checks fencing tokens (FencingToken), a lock with a lifetime
-- on one server (RedisLock) and a lock on a quorum of servers (Redlock).
pub mod FencingToken
pub mod RedisLock
pub mod Redlock
pub mod Quorum
pub mod Interleaved
mod Tests
