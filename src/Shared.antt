-- ===== src/Shared.antt =====
-- The helpers that the upload daemon and the ingest service share, analysis/_shared.
pub mod BoundedSeen
pub mod Bounded
pub mod Examples
