-- ===== src/Atlas.antt =====
pub mod Issues
pub mod Graph
pub mod Relations
pub mod Gates
pub mod Canonical
pub mod Projection
pub mod Keys
pub mod Payload
pub mod Hierarchy
pub mod Versions
mod Examples
