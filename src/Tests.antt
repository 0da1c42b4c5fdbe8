-- ===== src/Tests.antt =====
-- A concrete platform, concrete runs, and the theorems at concrete inputs.
mod Codec
mod Platform
mod Node
mod Samples
mod Admission
mod Queries
mod Storages
mod Cluster
mod Documents
mod Wire
mod Sockets
mod Restarts
mod Numbers
mod Nodes
mod Syncs
mod Life
mod Hooks
mod Locks
mod Leaving
