-- ===== src/Daemon.antt =====
-- The daemon of rust/nvnmosd: its state and the operations on it (src/state.rs), one child for each
-- group of operations.
pub mod Types
pub mod Status
pub mod State
pub mod Ports
pub mod Sessions
pub mod Closing
pub mod Streams
pub mod TransportFile
pub mod Resources
pub mod Activations
pub mod ChannelMappings
pub mod MappingRoutes
pub mod Nodes
pub mod Index
pub mod Unmoved
pub mod Steps
pub mod AnnotationStore
pub mod Annotations
pub mod Requests
pub mod Promises
pub mod Watchdogs
mod Tests
