-- ===== src/Limiter.antt =====
-- throttled/rate_limiter: the algorithms, over the memory store.
pub mod Runs
pub mod FixedWindow
pub mod SlidingWindow
pub mod TokenBucket
pub mod LeakingBucket
pub mod Gcra
pub mod Periods
