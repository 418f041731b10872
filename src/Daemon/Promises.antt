-- ===== src/Daemon/Promises.antt =====
-- What the operations of rust/nvnmosd/src/state.rs promise, on every valid system.
mod Frame
pub mod Close
pub mod Nodes
pub mod Restore
pub mod Refusals
pub mod Resources
pub mod Undo
pub mod Routing
pub mod Streams
pub mod LateCommit
pub mod MappingRouting
pub mod MappingIds
pub mod Acknowledgement
