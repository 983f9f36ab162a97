-- ===== src/Engine.antt =====
-- clients/desktop/core/src/engine.rs: the sync engine.
pub mod Dedup
pub mod Holds
pub mod Roster
pub mod Backoff
pub mod Command
pub mod Paths
pub mod Watcher
pub mod State
pub mod Trace
pub mod SendText
pub mod Uploads
pub mod Incoming
pub mod Frames
pub mod Actor
pub mod Run
pub mod EndToEnd
