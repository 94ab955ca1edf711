-- ===== src/Routers/Columns/Request.antt =====
-- The whole request of a scan: the term specs, the matches of one table or of the database, and the
-- tags (routers/columns.py, `scan_columns`). The queries of information_schema are arguments, as for
-- the classifier; where the columns of the one table or the names of the tables
-- cannot be fetched, the request fails.
pub mod Matches
pub mod Justified
use stardatadblabs.Base.{ℕ, Text, Option, none, some, List, [], ◌∷◌}
use stardatadblabs.Base.Dict.{Dict}
use stardatadblabs.Catalog.Session.{Error, unavailable, Action, ◌>>=◌, query, or_raise}
use stardatadblabs.Classifier.Terms.{ColumnMatch, TermSpec}
use stardatadblabs.Classifier.Scan.{load_term_specs, scan_table, scan_database}
use stardatadblabs.Routers.Columns.Scan.{ScanRequest, ScanTableResult, scan_columns}

module _ (columns_of : Text → Text → Option (List Text)) (suffix : Text)
    (names_of : Text → Option (List Text)) where
  abbrev pub one_table : Text → Option (List ColumnMatch) → Option (Dict (List ColumnMatch))
  one_table table none = none
  one_table table (some ms) = some ((table, ms) ∷ [])

  abbrev pub all_tables :
      Text → List TermSpec → ℕ → Option (List Text) → Option (Dict (List ColumnMatch))
  all_tables database specs threshold none = none
  all_tables database specs threshold (some names) =
      some (scan_database columns_of suffix database names specs threshold)

  -- `tables_matches`; an empty name of a table counts as none.
  unfoldable pub tables_matches :
      Text → Option Text → List TermSpec → ℕ → Option (Dict (List ColumnMatch))
  tables_matches database none specs threshold =
      all_tables database specs threshold (names_of database)
  tables_matches database (some []) specs threshold =
      all_tables database specs threshold (names_of database)
  tables_matches database (some (c ∷ cs)) specs threshold =
      one_table (c ∷ cs) (scan_table columns_of database (c ∷ cs) specs threshold)

  unfoldable pub post_scan : ℕ → Option Text → ScanRequest → Action (List ScanTableResult)
  unfolding tables_matches load_term_specs scan_columns
  post_scan threshold table body = do
    specs ← query load_term_specs
    found ← or_raise (tables_matches body.stardata_database table specs threshold) unavailable
    scan_columns body found
