-- ===== src/Proxy/Graph.antt =====
-- A query whose rows become a graph, with the graphs that Memgraph still has
-- (docker/duckdb/stargraph_sql_proxy.py).
pub mod Cached
pub mod Again
use stardatadblabs.Base.{
  ℕ, ◌+◌, ◌-◌, ltb, leb, Text, codes, Bool, true, false, not, ◌&&◌, Option, none, some, List, [],
  ◌∷◌, ◌++◌, map, take, drop, if◌then◌else◌,
}
use stardatadblabs.Base.Dict.{Dict, lookup, keys}
use stardatadblabs.Base.Lines.{upper}
use stardatadblabs.Replication.Statements.{truthy}
use stardatadblabs.Proxy.Cypher.{build_merge_and_query_cypher}

pub record SqlRequest : Type 0 where
  pub sql : Option Text
  pub sql_b64 : Option Text
  pub parameters : List Text

-- A record of a graph query: its keys and their values as JSON.
abbrev pub Record : Type 0
Record = Dict Text

-- What DuckDB answers: an HTTP error, an answer with an error, or columns and rows.
pub data DuckReply : Type 0 where
  refused : ℕ → DuckReply
  failed : DuckReply
  answered : List Text → List (List Text) → DuckReply

-- What the proxy calls. An operation on Memgraph that raises is none; `stamps` are the `_cached_at` of
-- at most one node of a scope.
pub record Services : Type 1 where
  pub State : Type 0
  pub decode : Text → Option Text
  pub md5_hex : Text → Text
  pub query : Text → List Text → DuckReply
  pub stamps : Text → Text → State → Option (List (Option ℕ))
  pub evict : Text → Text → State → Option State
  pub match_edges : Text → Text → State → Option (List Record)
  pub match_nodes : Text → Text → State → Option (List Record)
  pub merge : Text → List Text → List (List Text) → State → Option State
  pub set_stamp : Text → Text → ℕ → State → Option State
  pub run_match : Text → State → Option (List Record)

pub record Envelope : Type 0 where
  pub columns : List Text
  pub rows : List (List Text)

pub data Answer : Type 0 where
  http : ℕ → Answer
  no_rows : Answer
  cached loaded : Envelope → Answer

abbrev value_of : Option Text → Text
value_of none = []
value_of (some v) = v

unfoldable pub envelope : List Record → Envelope
unfolding lookup keys
envelope [] = record { columns = []; rows = [] }
envelope (r ∷ rs) = record {
  columns = keys r;
  rows = map (λ x. map (λ k. value_of (lookup k x)) (keys r)) (r ∷ rs);
}

abbrev capital : Text → Text
capital s = upper (take 1 s) ++ drop 1 s

abbrev evicted : {S : Type 0} → Option S → S → S
evicted none s = s
evicted (some s') s = s'

module _ (V : Services) where
  abbrev resolve : Option Text → Option Text → Option Text
  resolve none sql = truthy sql
  resolve (some b64) sql = V.decode b64

  -- None is a ValueError.
  unfoldable pub resolved_sql : SqlRequest → Option Text
  resolved_sql q = resolve (truthy q.sql_b64) q.sql

  unfoldable pub scope_of : Text → Text
  scope_of sql = codes "sgq_" ++ take 8 (V.md5_hex sql)

  unfoldable pub label_of : Text → Text
  unfolding scope_of upper
  label_of sql = capital (scope_of sql)

  abbrev found : Option (List Record) → Option Envelope
  found none = none
  found (some []) = none
  found (some (r ∷ rs)) = some (envelope (r ∷ rs))

  -- Edges first, and nodes where there is none.
  abbrev pub read_graph : Option (List Record) → Option (List Record) → Option Envelope
  read_graph none nodes = none
  read_graph (some []) nodes = found nodes
  read_graph (some (r ∷ rs)) nodes = some (envelope (r ∷ rs))

  abbrev pub check_stamp :
      ℕ → ℕ → Text → Text → V.State → Option (List (Option ℕ)) → Option Envelope × V.State
  check_stamp ttl now scope label s (some (some cached_at ∷ rest)) =
      if ltb (cached_at + ttl) now
      then (none, evicted (V.evict label scope s) s)
      else (read_graph (V.match_edges label scope s) (V.match_nodes label scope s), s)
  check_stamp ttl now scope label s _ = (none, s)

  -- `_check_memgraph_cache`; every exception in it is a miss.
  unfoldable pub check_memgraph_cache : ℕ → ℕ → Text → Text → V.State → Option Envelope × V.State
  unfolding envelope
  check_memgraph_cache ttl now scope label s =
      check_stamp ttl now scope label s (V.stamps label scope s)

  abbrev pub answer_of : V.State → Option (List Record) → Answer × V.State
  answer_of s none = (http 502, s)
  answer_of s (some records) = (loaded (envelope records), s)

  abbrev pub stamped : Text → V.State → Option V.State → Answer × V.State
  stamped query_cypher s none = (http 502, s)
  stamped query_cypher s (some s') = answer_of s' (V.run_match query_cypher s')

  abbrev pub merged : ℕ → Text → Text → Text → V.State → Option V.State → Answer × V.State
  merged now query_cypher scope label s none = (http 502, s)
  merged now query_cypher scope label s (some s') =
      stamped query_cypher s' (V.set_stamp label scope now s')

  -- `_load_and_query_memgraph`
  unfoldable pub load_and_query_memgraph :
      ℕ → Text × Text → List Text → List (List Text) → Text → Text → V.State → Answer × V.State
  unfolding envelope
  load_and_query_memgraph now cyphers cols rows scope label s =
      merged now cyphers.1 scope label s (V.merge cyphers.0 cols rows s)

  abbrev pub load_reply : ℕ → Text → V.State → DuckReply → Answer × V.State
  load_reply now sql s (refused status) = (http status, s)
  load_reply now sql s failed = (http 400, s)
  load_reply now sql s (answered cols []) = (no_rows, s)
  load_reply now sql s (answered cols (r ∷ rows)) =
      load_and_query_memgraph now (build_merge_and_query_cypher cols (scope_of sql) (label_of sql))
        cols (r ∷ rows) (scope_of sql) (label_of sql) s

  abbrev pub after_check : ℕ → Text → List Text → Option Envelope × V.State → Answer × V.State
  after_check now sql parameters (some e, s) = (cached e, s)
  after_check now sql parameters (none, s) = load_reply now sql s (V.query sql parameters)

  abbrev pub check_if : ℕ → ℕ → Text → V.State → Option Envelope × V.State
  check_if ttl now sql s =
      if ltb 0 ttl then check_memgraph_cache ttl now (scope_of sql) (label_of sql) s else (none, s)

  abbrev pub graph_of : ℕ → ℕ → List Text → V.State → Option Text → Answer × V.State
  graph_of ttl now parameters s none = (http 400, s)
  graph_of ttl now parameters s (some sql) = after_check now sql parameters (check_if ttl now sql s)

  -- The handler of /graph-query.
  unfoldable pub sql_to_graph : ℕ → ℕ → SqlRequest → V.State → Answer × V.State
  unfolding resolved_sql label_of scope_of check_memgraph_cache load_and_query_memgraph
      build_merge_and_query_cypher
  sql_to_graph ttl now q s = graph_of ttl now q.parameters s (resolved_sql q)
