-- ===== src/Proxy/Tree.antt =====
-- The browser of the catalog: tables and columns grouped by namespace
-- (docker/duckdb/stargraph_sql_proxy.py).
pub mod Grouped
pub mod Sorted
use stardatadblabs.Base.{
  ℕ, ltb, ◌==◌, Text, codes, text_eq, Bool, true, false, ◌&&◌, Option, none, some, List, [], ◌∷◌,
  ◌++◌, if◌then◌else◌,
}
use stardatadblabs.Proxy.Groups.{Groups, append_at, get_list, group}

-- A row of `information_schema.tables` and of `information_schema.columns`.
pub record TableRow : Type 0 where
  pub catalog : Text
  pub schema : Text
  pub table : Text

pub record ColumnRow : Type 0 where
  pub of_table : TableRow
  pub column_name : Text
  pub data_type : Text

pub record ColumnEntry : Type 0 where
  pub name : Text
  pub type : Text

pub record TableEntry : Type 0 where
  pub name : Text
  pub full_name : Text
  pub columns : List ColumnEntry

-- `(catalog, schema, table)` as a key.
unfoldable pub same_table : TableRow → TableRow → Bool
unfolding text_eq
same_table a b =
    text_eq a.catalog b.catalog && (text_eq a.schema b.schema && text_eq a.table b.table)

abbrev pub column_entry : ColumnRow → ColumnEntry
column_entry r = record { name = r.column_name; type = r.data_type }

-- `col_index`
unfoldable pub col_index : List ColumnRow → Groups TableRow ColumnEntry
unfolding group same_table
col_index rows = group same_table (λ r. r.of_table) column_entry rows []

abbrev pub table_entry : Groups TableRow ColumnEntry → TableRow → TableEntry
table_entry index r = record {
  name = r.table;
  full_name = r.catalog ++ codes "." ++ r.schema ++ codes "." ++ r.table;
  columns = get_list same_table r index;
}

-- `ns_map`
unfoldable pub ns_map : Groups TableRow ColumnEntry → List TableRow → Groups Text TableEntry
unfolding group text_eq
ns_map index rows = group text_eq (λ r. r.schema) (table_entry index) rows []

-- `<=` on texts.
unfoldable pub text_leb : Text → Text → Bool
text_leb [] t = true
text_leb (c ∷ s) [] = false
text_leb (c ∷ s) (d ∷ t) = let rest = text_leb s t in if c == d then rest else ltb c d

-- `sorted(ns_map.items())`, by the names, which are distinct.
unfoldable pub insert_sorted :
    Text × List TableEntry → Groups Text TableEntry → Groups Text TableEntry
unfolding text_leb
insert_sorted e [] = e ∷ []
insert_sorted e (f ∷ d) =
    let rest = insert_sorted e d in if text_leb e.0 f.0 then e ∷ f ∷ d else f ∷ rest

unfoldable pub sorted_items : Groups Text TableEntry → Groups Text TableEntry
unfolding insert_sorted
sorted_items [] = []
sorted_items (e ∷ d) = insert_sorted e (sorted_items d)

abbrev pub tree : Option (List TableRow) → Option (List ColumnRow) → Option (Groups Text TableEntry)
tree none cols = none
tree (some rows) none = none
tree (some rows) (some cols) = some (sorted_items (ns_map (col_index cols) rows))

-- `get_catalog`, from the rows that DuckDB answers; none is an answer with an error, and a 502 here.
unfoldable pub get_catalog :
    Option (List TableRow) → Option (List ColumnRow) → Option (Groups Text TableEntry)
unfolding sorted_items ns_map col_index get_list
get_catalog tables columns = tree tables columns
