-- ===== src/FlowDef/Tests.antt =====
-- Flow definitions on concrete instances of what they rely on.
mod Values
pub mod Structures
mod Reader
mod Documents
