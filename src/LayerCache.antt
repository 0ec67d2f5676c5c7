-- ===== src/LayerCache.antt =====
-- app/layer_cache.py: the bounded cache with stale-while-revalidate and singleflight.
pub mod State
pub mod Bound
pub mod Tickets
pub mod Forgotten
pub mod Producers
pub mod Locks
