-- ===== src/Daemon/Tests.antt =====
-- Concrete runs of the daemon of rust/nvnmosd.
mod Run
mod Late
mod Sessions
mod Resources
mod Mappings
mod Annotations
mod Annotating
mod Abandoned
