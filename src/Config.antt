-- ===== src/Config.antt =====
-- internal/config: pipeline.toml is validated and turned into a pipeline.
pub mod Models
pub mod Loader
pub mod Validity
mod Checks
mod Stages
pub mod Acceptance
pub mod Translation
pub mod Delivery
pub mod Load
pub mod Sources
