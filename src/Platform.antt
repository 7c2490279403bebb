-- ===== src/Platform.antt =====
-- What the backend uses of the frameworks below it, as interfaces.
pub mod KeyStore
pub mod Cache
pub mod Redis
pub mod LocalRedis
pub mod TextCase
pub mod Jwt
