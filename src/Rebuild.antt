-- ===== src/Rebuild.antt =====
-- Publication jobs: apps/rebuild (models.py, services.py).
pub mod Models
pub mod Paths
pub mod Jobs
pub mod Auth
mod Examples
