-- ===== src/Agent.antt =====
-- clients/desktop/agent/src/main.rs: the daemon around the engine.
pub mod Telemetry
pub mod Requests
pub mod Emitter
pub mod Connection
pub mod Supervisor
pub mod Startup
pub mod CommandLine
