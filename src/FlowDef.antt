-- ===== src/FlowDef.antt =====
-- MXL flow definitions of rust/gst-nmos-rs: JSON documents that the elements read, splice their
-- properties into, and build from caps (src/flow_def.rs, src/domain.rs, src/types.rs).
pub mod Json
pub mod Types
pub mod Read
pub mod Splice
pub mod Spliced
pub mod Overridden
pub mod Roundtrip
pub mod Caps
pub mod Tests
