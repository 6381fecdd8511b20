-- ===== src/Cache.antt =====
-- engineering/storage/mini-impl/cache/cache_framework.py: the local cache with expiry, three
-- eviction policies, statistics and events (`Cache`). `State` has the data, `Eviction` and
-- `Methods` the code; the other modules are about them.
pub mod State
pub mod Eviction
pub mod Methods
pub mod Invariant
pub mod Victims
pub mod Validity
pub mod Reads
pub mod MultiLevel
mod Tests
