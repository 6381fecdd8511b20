-- ===== src/MiniFramework.antt =====
-- language/python/mini-runtime/mini_framework: the cache with lifetimes (MiniCacheTtl).
pub mod MiniCacheTtl
pub mod MiniTaskQueue
pub mod MiniPubSub
pub mod Router
pub mod MiniScheduler
mod Tests
