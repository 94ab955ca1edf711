-- ===== src/Cluster.antt =====
-- The programs that watch the cluster (scripts/).
pub mod Quantity
pub mod Monitor
