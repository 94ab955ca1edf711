-- ===== src/Catalog.antt =====
-- The catalog database of star-knowledge-catalog/catalog and the sessions that work on it.
pub mod Rows
pub mod Cache
pub mod Session
