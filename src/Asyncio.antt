-- ===== src/Asyncio.antt =====
-- throttled/asyncio: the twins of the classes, whose methods are coroutines.
pub mod Coro
pub mod Hooks
pub mod Store
pub mod Limiters
pub mod Throttled
