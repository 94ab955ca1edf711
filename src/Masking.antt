-- ===== src/Masking.antt =====
-- The masking engine, star-knowledge-catalog/catalog/engine/masking.py.
pub mod Policy
pub mod Ddl
pub mod Route
pub mod Stardata
pub mod Lockdown
pub mod Apply
