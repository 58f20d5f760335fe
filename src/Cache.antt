-- ===== src/Cache.antt =====
-- pkg/cache: the cache in memory and the cache in redis. The contexts of the calls are not used by
-- the code and are left out.
pub mod Spec
pub mod Memory
pub mod Redis
mod Tests
