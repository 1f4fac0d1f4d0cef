-- ===== src/Runner.antt =====
-- internal/runner
pub mod EnvFile
pub mod Docker
pub mod Session
pub mod Container
pub mod Steps
pub mod Job
pub mod Endings
pub mod Outcome
pub mod Verdict
mod Growth
pub mod Lifecycle
pub mod Exports
pub mod Novelty
