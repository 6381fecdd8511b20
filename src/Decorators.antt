-- ===== src/Decorators.antt =====
-- language/python/core-abstractions/decorators: retry (Retry), memoize (Memoize) and once (Once).
pub mod Retry
pub mod Memoize
pub mod Once
mod Tests
