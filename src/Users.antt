-- ===== src/Users.antt =====
-- backend/apps/users: tokens, their blacklist, and who a request comes from.
pub mod Tokens
pub mod Registration
pub mod Authentication
pub mod Endpoints
mod Tests
