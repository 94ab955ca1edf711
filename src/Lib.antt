-- ===== src/Lib.antt =====
-- Verification of the star knowledge catalog (star-knowledge-catalog/catalog), the service that tags
-- the columns of a Stardata database, builds masked views from the tags and routes queries to the
-- view or to the base table, and of scripts of the platform around it (scripts): those that carry DDL
-- changes from the sources to Iceberg, the monitor of the cluster, the SQL proxy
-- (docker/duckdb) and the proxy in front of Polaris (manifests/polaris-auth-proxy).
--
-- The parts and where they are modelled:
--   Base        helpers: tests, lists, texts as lists of code points, integers, dictionaries.
--   Catalog     models.py (Catalog/Rows: one record for each table), database.py (Catalog/Cache: the
--               class _TTLCache; Catalog/Session: db_session as a transaction that is rolled back on
--               an error, and the invalidation of the cache).
--   Classifier  engine/classifier.py: _base_score (Score), the four signals (Signals), _arbitrate
--               (Arbitrate), classify_columns (Classify), the term specs and the scans of tables
--               (Scan). Scores are in hundredths.
--   Masking     engine/masking.py: _resolve_policy_for_column (Policy), _build_view_ddl (Ddl),
--               resolve_query_target (Route), the statements to the server (Stardata),
--               _enforce_base_table_lockdown (Lockdown), apply_masking_view (Apply).
--   Routers     routers/governance_switch.py (Switch), columns.py (Columns, with the scan in
--               Columns/Scan and its request in Columns/Request), exceptions.py (Exceptions), policies.py (Policies), masking.py (Views
--               for the run over a database, Query for the planner).
--   Replication scripts/ddl_apply.py: the commands of a run and the world that answers them (Shell),
--               Deployments, scaling and waiting (Deployments with Waiting and Stopping, Targets), the statements (Statements),
--               the pod that runs them (Executor), the backfill (Backfill), apply_ddl (Apply), main
--               (Launch). scripts/ddl_extract.py: types (Types), events and the loop over a topic
--               (Extract). Trace follows the changes through the parts of a script.
--   Cluster     scripts/node-pressure-monitor.py: quantities (Quantity) and a poll (Monitor).
--   Proxy       docker/duckdb/stargraph_sql_proxy.py: grouping by key (Groups), the tree of get_catalog
--               (Tree), the Cypher statements that load rows and read them (Cypher), sql_to_graph with
--               its cache in Memgraph (Graph).
--   Polaris     manifests/polaris-auth-proxy/polaris_auth_proxy.py: the token manager (Tokens) and the
--               headers of a request that is passed on (Headers).
--   Examples    a small catalog with a concrete server, and each theorem applied to it.
--
-- A handler is a function from the state to a result and a state. `Service` has the tables and the
-- cache, `World` the server as well. The handlers of the routers call the engine the way the source
-- does: a scan stores tags, `apply_masking_view` reads them, writes the manifest and changes the
-- grants on the server, and the planner reads tags, exceptions and switches. The scopes of a caller
-- are not modelled.
--
-- What is not under the catalog's own code is a parameter: a `Backend` executes statements, lists
-- columns and grantees, and knows the roles of a user and the digest of a text. The hypothesis
-- `IsLawful` says what its grants and revocations do; it says nothing of those that fail. Settings and the clock are arguments.
--
-- `isdigit` and `int` of Python are parameters of the translation of types (`Numbers`).
--
-- A script of Replication is a function from the list of the commands that ran before it, newest
-- first, to a result and such a list; what the world answers to a command may depend on that list. An
-- answer that is none is an exception of `subprocess.run`.
--
-- DuckDB, Memgraph, md5 and base64 are the `Services` of Proxy/Graph; `IsLawful` of Proxy/Graph/Again
-- says what Memgraph does with the statements of the proxy.
--
-- Recursion is structural, with fuel in three places. `decimal` of Routers/Query is given more than the
-- number it prints, which is more than the number has digits. `poll_until` of Replication/Deployments
-- is given a round more than the seconds of its time limit, and a round sleeps for five seconds.
-- `consume` of Replication/Extract is given its rounds by the caller.
--
-- Where the source leaves an order open, the model picks one: of several policies with the same
-- priority the first row, and of rows that are selected without an order the order of the table.
-- One counter gives the ids of all tables. Requests run one after the other.
--
-- Not modelled: the shared Redis cache, whose errors are ignored and which no handler reads; the
-- reading handlers that only list rows; the glossary, classification, algorithm and token routers;
-- the translation of
-- Cypher to SQL in the proxy; the texts of log lines and error details; the other programs of the repository.
pub mod Base
pub mod Classifier
pub mod Catalog
pub mod Cluster
pub mod Masking
pub mod Polaris
pub mod Proxy
pub mod Replication
pub mod Routers
pub mod Examples
