-- ===== src/Proxy/Cypher.antt =====
-- The Cypher texts that load the rows of a query as a graph and read it back
-- (docker/duckdb/stargraph_sql_proxy.py).
use stardatadblabs.Base.{
  Text, codes, text_eq, contains, lower, not, Option, none, some, List, [], ◌∷◌, ◌++◌, map, keep,
  take, find, if◌then◌else◌,
}
use stardatadblabs.Base.Lines.{join_with}
use stardatadblabs.Replication.Deployments.{is_empty}

-- The first column with one of the names in lower case.
unfoldable pub column_named : List Text → List Text → Option Text
unfolding lower text_eq
column_named names cols = find (λ c. contains names (lower c)) cols

abbrev pub row_or : Option Text → Text → Text
row_or none quoted = quoted
row_or (some col) quoted = codes "row." ++ col

abbrev structural : List Text
structural =
    codes "source_node_id"
    ∷ codes "target_node_id"
    ∷ codes "relationship_type"
    ∷ codes "source_node_type"
    ∷ codes "target_node_type"
    ∷ []

abbrev set_edge : Text → Text
set_edge c = codes "r." ++ c ++ codes " = row." ++ c

abbrev pub relationship_expr : List Text → Text
relationship_expr cols =
    row_or (column_named (codes "relationship_type" ∷ []) cols) (codes "'RELATED'")

unfoldable pub edge_sets : List Text → List Text
unfolding column_named
edge_sets cols =
    map set_edge (take 12 (keep (λ c. not (contains structural (lower c))) cols))
    ++ ((codes "r.relationship_type = " ++ relationship_expr cols) ∷ [])

abbrev on_create : Text → Text → Text → Text
on_create var expr scope =
    codes "ON CREATE SET "
    ++ var
    ++ codes "._label = "
    ++ expr
    ++ codes ", "
    ++ var
    ++ codes "._scope = '"
    ++ scope
    ++ codes "'\n"

abbrev merge_node : Text → Text → Text → Text
merge_node var label col =
    codes "MERGE ("
    ++ var
    ++ codes ":"
    ++ label
    ++ codes " {_id: toString(row."
    ++ col
    ++ codes ")})\n"

-- `merge_cypher` for an edge result, from its two columns of ids.
unfoldable pub merge_edges : List Text → Text → Text → Text → Text → Text
unfolding column_named edge_sets join_with
merge_edges cols src_col tgt_col scope label =
    codes "UNWIND $rows AS row\n"
    ++ merge_node (codes "src") label src_col
    ++ on_create (codes "src")
        (row_or (column_named (codes "source_node_type" ∷ []) cols) (codes "'SrcNode'")) scope
    ++ merge_node (codes "tgt") label tgt_col
    ++ on_create (codes "tgt")
        (row_or (column_named (codes "target_node_type" ∷ []) cols) (codes "'TgtNode'")) scope
    ++ codes "MERGE (src)-[r:RELATED]->(tgt)\nON CREATE SET r._scope = '"
    ++ scope
    ++ codes "',\n               "
    ++ join_with (codes ",\n               ") (edge_sets cols)

abbrev pub edge_query : Text → Text → Text
edge_query label scope =
    codes "MATCH (src:"
    ++ label
    ++ codes ")-[r:RELATED]->(tgt:"
    ++ label
    ++ codes ")\nWHERE r._scope = '"
    ++ scope
    ++ codes
        "'\nRETURN\n  src._id             AS source_node_id,\n  src._label          AS source_node_type,\n  r.relationship_type AS relationship_type,\n  tgt._id             AS target_node_id,\n  tgt._label          AS target_node_type\nLIMIT 500"

abbrev first_column : List Text → Text
first_column [] = []
first_column (c ∷ cols) = c

abbrev or_column : Option Text → Text → Text
or_column none c = c
or_column (some d) c = d

unfoldable pub id_column : List Text → Text
unfolding column_named
id_column cols =
    or_column
      (column_named
        (codes "node_id" ∷ codes "customer_id" ∷ codes "item_id" ∷ codes "store_id" ∷ []) cols)
      (first_column cols)

abbrev set_node : Text → Text
set_node c = codes "n." ++ c ++ codes " = row." ++ c

abbrev set_clause : Text → Text
set_clause sets = if is_empty sets then [] else codes "SET " ++ sets

-- `merge_cypher` for a node result.
unfoldable pub merge_nodes : List Text → Text → Text → Text
unfolding column_named id_column join_with text_eq
merge_nodes cols scope label =
    codes "UNWIND $rows AS row\n"
    ++ merge_node (codes "n") label (id_column cols)
    ++ codes "ON CREATE SET n._scope = '"
    ++ scope
    ++ codes "', n._label = "
    ++ row_or (column_named (codes "node_type" ∷ []) cols) (codes "'Node'")
    ++ codes "\n"
    ++ set_clause (
        join_with (codes ",\n  ")
          (map set_node (take 20 (keep (λ c. not (text_eq c (id_column cols))) cols))))

abbrev pub node_query : Text → Text → Text
node_query label scope =
    codes "MATCH (n:"
    ++ label
    ++ codes ")\nWHERE n._scope = '"
    ++ scope
    ++ codes
        "'\nRETURN\n  n._id    AS node_id,\n  n._label AS node_type,\n  properties(n) AS props\nLIMIT 500"

abbrev both : Option Text → Option Text → Option (Text × Text)
both none b = none
both (some a) none = none
both (some a) (some b) = some (a, b)

-- The two columns of an edge result.
abbrev pub edge_columns : List Text → Option (Text × Text)
edge_columns cols =
    both (column_named (codes "source_node_id" ∷ []) cols)
      (column_named (codes "target_node_id" ∷ []) cols)

abbrev pub cyphers_for : List Text → Text → Text → Option (Text × Text) → Text × Text
cyphers_for cols scope label none = (merge_nodes cols scope label, node_query label scope)
cyphers_for cols scope label (some (src_col, tgt_col)) =
    (merge_edges cols src_col tgt_col scope label, edge_query label scope)

-- `_build_merge_and_query_cypher`
unfoldable pub build_merge_and_query_cypher : List Text → Text → Text → Text × Text
unfolding merge_nodes merge_edges column_named
build_merge_and_query_cypher cols scope label = cyphers_for cols scope label (edge_columns cols)
