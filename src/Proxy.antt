-- ===== src/Proxy.antt =====
-- The proxy between SQL, Cypher and the graph (docker/duckdb/stargraph_sql_proxy.py).
pub mod Groups
pub mod Tree
pub mod Cypher
pub mod Graph
