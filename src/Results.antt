-- ===== src/Results.antt =====
-- internal/results: the durable record of lifecycle events.
pub mod Tables
pub mod Numbers
pub mod Rows
pub mod Store
pub mod Statements
pub mod Decimals
pub mod Redelivery
pub mod Failure
pub mod Keys
pub mod Schema
pub mod Integrity
pub mod Selection
pub mod Known
pub mod Sequence
pub mod StepRows
