-- ===== src/Media.antt =====
-- The media library: which uploads are accepted.
pub mod Upload
mod Examples
