-- ===== src/Document.antt =====
-- crates/hocuspocus/src/document.rs: the actor that owns one document.
pub mod State
pub mod Broadcast
pub mod Connections
pub mod Updates
pub mod Store
pub mod Frames
pub mod Commands
pub mod Actor
pub mod Core
pub mod View
pub mod Quiet
pub mod Durable
pub mod Access
pub mod Invariant
pub mod Handlers
pub mod Reachable
pub mod Debounce
pub mod Exit
pub mod FanOut
pub mod Coalesce
pub mod Removal
pub mod Resident
pub mod Handshake
