-- ===== src/Security.antt =====
-- Sign-in: the recovery codes of the second factor.
pub mod Recovery
mod Examples
