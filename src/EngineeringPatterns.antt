-- ===== src/EngineeringPatterns.antt =====
-- language/python/engineering-patterns: the unit of work (UnitOfWork).
pub mod UnitOfWork
pub mod TokenBucket
pub mod Repository
pub mod EventBus
pub mod MiddlewareChain
pub mod RetryPolicy
mod Tests
