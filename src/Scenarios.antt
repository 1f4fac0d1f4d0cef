-- ===== src/Scenarios.antt =====
-- Concrete inputs for the theorems, and tests of the code on them.
mod Jobs
mod Exported
mod Configs
mod Statuses
mod Runs
mod Records
mod Streams
mod Entries
mod Requests
mod Programs
