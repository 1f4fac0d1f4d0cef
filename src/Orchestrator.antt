-- ===== src/Orchestrator.antt =====
-- internal/orchestrator: a pipeline's stages in turn, and the jobs of a stage at once.
pub mod Bus
pub mod Stage
pub mod Run
pub mod Results
pub mod FailFast
pub mod Journal
pub mod Interleaving
