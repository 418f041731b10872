-- ===== src/ChannelMap.antt =====
-- The channel mapping element of rust/gst-nmos-rs (src/channel_mapping): the frozen topology of its
-- pads, active maps, and the mixing matrices made of them.
pub mod Topology
pub mod Validation
pub mod Matrix
pub mod ActiveMap
mod Tests
