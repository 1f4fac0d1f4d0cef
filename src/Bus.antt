-- ===== src/Bus.antt =====
-- internal/bus, and the Redis client that it shares with internal/consumer.
pub mod Redis
pub mod Publisher
