-- ===== src/Domain.antt =====
-- internal/domain: the data that the other packages exchange.
pub mod Status
pub mod Duration
pub mod Result
pub mod Pipeline
pub mod Worst
pub mod Verdict
pub mod Elapsed
