-- ===== src/Classifier/Scan.antt =====
-- The term specs and the scans of tables (classifier.py, `_load_term_specs`, `_get_stardata_tables`,
-- `scan_table` and `scan_database`). The answers of information_schema are arguments: the columns of
-- a table, none where the query raises, and the names of the base tables.
pub mod Results
use stardatadblabs.Base.{
  ℕ, Text, codes, lower, ends_with, Bool, not, Option, none, some, List, [], ◌∷◌, map, keep, find,
  holds_id,
}
use stardatadblabs.Base.Dict.{Dict, insert}
use stardatadblabs.Catalog.Rows.{DataClassification, GlossaryTerm, Tables}
use stardatadblabs.Classifier.Terms.{ColumnMatch, TermSpec}
use stardatadblabs.Classifier.Classify.{classify_columns}

-- `cls.name if cls else None`
abbrev pub name_of : Option DataClassification → Option Text
name_of none = none
name_of (some cls) = some cls.name

-- `cls.sensitivity if cls else "low"`
abbrev pub sensitivity_of : Option DataClassification → Text
sensitivity_of none = codes "low"
sensitivity_of (some cls) = cls.sensitivity

-- `t.classification`
abbrev pub classification_of : GlossaryTerm → Tables → Option DataClassification
classification_of t db = find (λ c. holds_id t.classification_id c.id) db.classifications

unfoldable pub term_spec : Tables → GlossaryTerm → TermSpec
unfolding lower
term_spec db t = record {
  id = t.id;
  name = t.name;
  classification_id = t.classification_id;
  classification_name = name_of (classification_of t db);
  classification_sensitivity = sensitivity_of (classification_of t db);
  patterns = map lower t.column_name_patterns;
  negative_patterns = map lower t.negative_patterns;
  table_name_negative_patterns = map lower t.table_name_negative_patterns;
  table_name_positive_patterns = map lower t.table_name_positive_patterns;
}

unfoldable pub load_term_specs : Tables → List TermSpec
unfolding term_spec
load_term_specs db = map (term_spec db) db.terms

-- The base tables that are not masked views.
unfoldable pub stardata_tables : Text → List Text → List Text
unfolding ends_with
stardata_tables suffix names = keep (λ n. not (ends_with n suffix)) names

module _ (columns_of : Text → Text → Option (List Text)) where
  unfoldable pub scan_table : Text → Text → List TermSpec → ℕ → Option (List ColumnMatch)
  scan_table database table specs threshold = elim (columns_of database table) [
    | none ↦ none
    | some cols ↦ some (classify_columns cols specs threshold table)
  ]

  -- `results[table] = …`, unless it raises.
  abbrev pub record_matches :
      Text → Option (List ColumnMatch) → Dict (List ColumnMatch) → Dict (List ColumnMatch)
  record_matches table none results = results
  record_matches table (some ms) results = insert table ms results

  unfoldable pub scan_tables :
      Text → List TermSpec → ℕ → List Text → Dict (List ColumnMatch) → Dict (List ColumnMatch)
  unfolding scan_table
  scan_tables database specs threshold [] results = results
  scan_tables database specs threshold (table ∷ tables) results =
      scan_tables database specs threshold tables
        (record_matches table (scan_table database table specs threshold) results)

  unfoldable pub scan_database :
      Text → Text → List Text → List TermSpec → ℕ → Dict (List ColumnMatch)
  unfolding scan_tables stardata_tables
  scan_database suffix database names specs threshold =
      scan_tables database specs threshold (stardata_tables suffix names) []
