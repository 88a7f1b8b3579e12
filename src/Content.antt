-- ===== src/Content.antt =====
-- Content rows: apps/content/services/lifecycle.py.
pub mod Lifecycle
mod Examples
