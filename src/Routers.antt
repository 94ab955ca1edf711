-- ===== src/Routers.antt =====
-- The request handlers (star-knowledge-catalog/catalog/routers).
pub mod Switch
pub mod Policies
pub mod Columns
pub mod Exceptions
pub mod Query
pub mod Views
