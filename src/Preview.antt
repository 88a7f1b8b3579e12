-- ===== src/Preview.antt =====
-- Preview tokens: the shared links of content rows, and the draft previews of the Atlas.
pub mod Share
pub mod Capability
mod Examples
