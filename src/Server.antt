-- ===== src/Server.antt =====
-- crates/hocuspocus/src/server.rs: the state of one WebSocket client (authentication, the queue
-- before it, and the routing of frames to documents), and the registry of documents.
pub mod Hub
pub mod Capacity
pub mod Shed
pub mod Client
pub mod Auth
pub mod Socket
pub mod Totals
pub mod Fits
pub mod Limits
pub mod Registration
pub mod Held
pub mod Handover
pub mod Accounted
pub mod Cleanup
pub mod Throttled
pub mod Stable
pub mod Evicted
pub mod Life
pub mod Writer
pub mod Builder
pub mod Priority
pub mod Admitted
pub mod Gate
pub mod Idle
