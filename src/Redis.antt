-- ===== src/Redis.antt =====
-- src/redis/: the Redis URIs, the options, the broker and the result backend.
pub mod Uri
pub mod Options
pub mod Connection
pub mod Broker
pub mod Backend
