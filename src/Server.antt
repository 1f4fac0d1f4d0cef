-- ===== src/Server.antt =====
-- internal/server: the gRPC handler of a pipeline run.
pub mod Messages
pub mod Handler
pub mod Paths
pub mod Location
pub mod Segments
pub mod Ways
pub mod Places
pub mod Confinement
pub mod Admission
pub mod Tree
