-- ===== src/Replication.antt =====
-- The scripts that replicate DDL of the sources to Iceberg (scripts/).
pub mod Shell
pub mod Deployments
pub mod Statements
pub mod Targets
pub mod Executor
pub mod Backfill
pub mod Apply
pub mod Trace
pub mod Launch
pub mod Types
pub mod Extract
