-- ===== src/Examples/Proxying.antt =====
-- The theorems on the proxy, on a small graph and a small catalog.
use stardatadblabs.Base.{
  ℕ, ◌≡◌, ◌≢◌, ◌⊎◌, refl, sym, ap, ◌∙◌, inl, inr, arith, Text, codes, starts_with, lower, text_eq,
  Option, none, some, List, [], ◌∷◌, if◌then◌else◌,
}
use stardatadblabs.Proxy.Groups.{Groups}
use stardatadblabs.Proxy.Tree.{TableRow, ColumnRow, TableEntry, get_catalog}
use stardatadblabs.Proxy.Tree.Grouped.{IsTree, get_catalog-IsTree}
use stardatadblabs.Proxy.Cypher.{column_named, edge_columns}
use stardatadblabs.Proxy.Graph.{
  SqlRequest, Record, DuckReply, answered, Services, Envelope, cached, resolved_sql, sql_to_graph,
}
use stardatadblabs.Proxy.Graph.Cached.{sql_to_graph_any_parameters}
use stardatadblabs.Proxy.Graph.Again.{IsLawful, sql_to_graph_again}

abbrev sales : TableRow
sales = record { catalog = codes "polaris"; schema = codes "tpcds"; table = codes "sales" }

abbrev items : TableRow
items = record { catalog = codes "polaris"; schema = codes "demo"; table = codes "items" }

abbrev sales_id : ColumnRow
sales_id = record { of_table = sales; column_name = codes "id"; data_type = codes "INT" }

get_catalog-IsTree_example :
    (t : Groups Text TableEntry) × (get_catalog (some (sales ∷ items ∷ [])) (some (sales_id ∷ []))
      ≡ some t)
    × IsTree (sales ∷ items ∷ []) (sales_id ∷ []) t
get_catalog-IsTree_example = get_catalog-IsTree (sales ∷ items ∷ []) (sales_id ∷ [])

abbrev edge : Record
edge = (codes "source_node_id", codes "1") ∷ (codes "target_node_id", codes "2") ∷ []

-- Memgraph with the graph of at most one scope: its stamp and its edges.
abbrev Memory : Type 0
Memory = Option (Option ℕ × List Record)

abbrev stamps : Memory → List (Option ℕ)
stamps none = []
stamps (some (t, edges)) = t ∷ []

abbrev edges_of : Memory → List Record
edges_of none = []
edges_of (some (t, edges)) = edges

abbrev with_stamp : ℕ → Memory → Memory
with_stamp t none = none
with_stamp t (some (old, edges)) = some (some t, edges)

run_match : Text → Memory → Option (List Record)
unfolding starts_with
run_match cypher s = if starts_with cypher (codes "MATCH (src:") then some (edges_of s) else some []

abbrev edge_names : List Text
edge_names = codes "source_node_id" ∷ codes "target_node_id" ∷ []

abbrev services : Services
services = record {
  State = Memory;
  decode = λ t. none;
  md5_hex = λ t. codes "0123456789abcdef";
  query = λ sql parameters. answered edge_names ((codes "1" ∷ codes "2" ∷ []) ∷ []);
  stamps = λ label scope s. some (stamps s);
  evict = λ label scope s. some none;
  match_edges = λ label scope s. some (edges_of s);
  match_nodes = λ label scope s. some [];
  merge = λ cypher cols rows s. some (some (none, edge ∷ []));
  set_stamp = λ label scope t s. some (with_stamp t s);
  run_match = run_match;
}

abbrev memory_of : Option Memory → Memory
memory_of none = none
memory_of (some s) = s

stamp_kept :
    (t : ℕ) (s s' : Memory)
    → ◌≡◌ {A = Option Memory} (some (with_stamp t s)) (some s')
    → (◌≡◌ {A = Option (List (Option ℕ))} (some (stamps s')) (some (some t ∷ [])))
      ⊎ ((◌≡◌ {A = Option (List Record)} (some (edges_of s')) (some []))
          × (◌≡◌ {A = Option (List Record)} (some []) (some [])))
stamp_kept t none s' h = inr (ap (λ m. some (edges_of (memory_of m))) (sym h), refl)
stamp_kept t (some (old, edges)) s' h = inl (ap (λ m. some (stamps (memory_of m))) (sym h))

services-IsLawful : IsLawful services
unfolding run_match
services-IsLawful = record {
  edges_text = λ label scope s. refl;
  nodes_text = λ label scope s. refl;
  stamp_read = λ label scope t s s' h. stamp_kept t s s' h;
}

abbrev by_name : SqlRequest
by_name = record { sql = some (codes "select"); sql_b64 = none; parameters = codes "ann" ∷ [] }

abbrev by_other_name : SqlRequest
by_other_name = record by_name { parameters = codes "bob" ∷ [] }

abbrev filled : Memory
filled = some (some 100, edge ∷ [])

abbrev edge_envelope : Envelope
edge_envelope = record { columns = edge_names; rows = (codes "1" ∷ codes "2" ∷ []) ∷ [] }

abbrev columns_of : DuckReply → List Text
columns_of (answered cols rows) = cols
columns_of _ = []

edge_columns_found :
    (cols : List Text) (rows : List (List Text))
    → answered edge_names ((codes "1" ∷ codes "2" ∷ []) ∷ []) ≡ answered cols rows
    → edge_columns cols ≢ none
unfolding column_named lower text_eq
edge_columns_found cols rows h e = absurd (cc (ap edge_columns (ap columns_of h) ∙ e))

sql_to_graph_again_example :
    sql_to_graph services 300 250 by_other_name filled ≡ (cached edge_envelope, filled)
unfolding sql_to_graph resolved_sql run_match
sql_to_graph_again_example =
    sql_to_graph_again services services-IsLawful 300 100 250 by_name by_other_name (codes "select")
      none edge_envelope filled (omega arith) (omega arith) refl refl refl (λ h. cc h)
      (λ cols rows k n. absurd (edge_columns_found cols rows k n))

sql_to_graph_any_parameters_example :
    sql_to_graph services 300 250 by_other_name filled
    ≡ sql_to_graph services 300 250 by_name filled
unfolding sql_to_graph resolved_sql run_match
sql_to_graph_any_parameters_example =
    sql_to_graph_any_parameters services 300 250 by_name by_other_name filled edge_envelope refl
      refl
