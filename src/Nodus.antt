-- ===== src/Nodus.antt =====
-- The Nodus storage layer: internal/nodus.
pub mod Slice
pub mod Cache
pub mod Node
pub mod Fuse
pub mod System
pub mod Cluster
pub mod Startup
pub mod Discovery
