-- ===== src/Commands.antt =====
-- cmd: the programs: the server's start with the recorder that it runs beside it, the client, and the
-- logger of events.
pub mod Startup
pub mod Readiness
pub mod Recorder
pub mod Client
pub mod EventsLogger
pub mod Printing
