-- ===== src/Flask.antt =====
-- throttled/contrib/flask: the limiter of Flask views, its storage keys and its headers. Flask itself
-- is outside: a request, the registered error handlers and the response are given, and `quote` of
-- urllib is a parameter.
pub mod Keys
pub mod Headers
pub mod View
pub mod Served
pub mod Setup
