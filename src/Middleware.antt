-- ===== src/Middleware.antt =====
-- The middleware of src/hypercorn/middleware.
pub mod ProxyFix
pub mod Dispatcher
pub mod Redirect
