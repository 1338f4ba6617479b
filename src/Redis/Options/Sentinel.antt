-- ===== src/Redis/Options/Sentinel.antt =====
-- The options of a server behind sentinels, whose URL is parsed: what was given stays.
use throttled_py.Common.{Bool, true, false}
use throttled_py.Common.Text.{Text}
use throttled_py.Common.Unicode.{Unicode}
use throttled_py.Redis.Options.{Options, OptionSetters, sync_backend, async_backend}

-- The backend of a store, of asyncio or not.
abbrev pub backend_of : Bool → OptionSetters
backend_of false = sync_backend
backend_of true = async_backend
