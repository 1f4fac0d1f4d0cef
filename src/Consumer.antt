-- ===== src/Consumer.antt =====
-- internal/consumer: one service's subscription to the event bus.
pub mod Options
pub mod Session
pub mod Entry
pub mod Loop
pub mod Outcomes
mod Reading
pub mod Fate
pub mod Delivery
pub mod Steps
pub mod Rounds
pub mod Acks
pub mod Scan
pub mod Worlds
pub mod Shutdown
