-- ===== src/Core.antt =====
-- backend/apps/core: what the other apps share.
pub mod Errors
pub mod RateLimit
pub mod Health
pub mod Middleware
pub mod Logging
