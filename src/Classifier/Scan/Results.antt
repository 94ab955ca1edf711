-- ===== src/Classifier/Scan/Results.antt =====
-- What a scan of a database returns for each table (classifier.py, `scan_database`).
use stardatadblabs.Base.{
  ℕ, ◌≡◌, refl, ap, ◌∙◌, Text, text_eq, text_eq_iff, contains, Bool, true, false, not, ◌&&◌, ◌||◌,
  ends_with, Option, none, some, List, [], ◌∷◌, keep, if◌then◌else◌, arith,
}
use stardatadblabs.Base.Dict.{Dict, lookup, lookup-insert}
use stardatadblabs.Classifier.Terms.{ColumnMatch, TermSpec}
use stardatadblabs.Classifier.Scan.{
  stardata_tables, scan_table, record_matches, scan_tables, scan_database,
}

abbrev or_else : Option (List ColumnMatch) → Option (List ColumnMatch) → Option (List ColumnMatch)
or_else none o = o
or_else (some ms) o = some ms

or_else_idem : (o x : Option (List ColumnMatch)) → or_else o (or_else o x) ≡ or_else o x
or_else_idem none x = refl
or_else_idem (some ms) x = refl

merge :
    (a b : Bool) (o p x : Option (List ColumnMatch))
    → (a ≡ true → p ≡ o)
    → (if b then or_else o (if a then or_else p x else x) else (if a then or_else p x else x))
      ≡ (if a || b then or_else o x else x)
merge false b o p x h = refl
merge true true o p x h = rw (h refl) (or_else_idem o x)
merge true false o p x h = rw (h refl) refl

module _ (columns_of : Text → Text → Option (List Text)) where
  lookup-record_matches :
      (t table : Text) (o : Option (List ColumnMatch)) (d : Dict (List ColumnMatch))
      → lookup t (record_matches columns_of table o d)
        ≡ (if text_eq table t then or_else o (lookup t d) else lookup t d)
  lookup-record_matches t table none d = ground arith
  lookup-record_matches t table (some ms) d = lookup-insert t table ms d

  lookup-scan_tables :
      (database t : Text) (specs : List TermSpec) (threshold : ℕ) (tables : List Text)
      (d : Dict (List ColumnMatch))
      → lookup t (scan_tables columns_of database specs threshold tables d) ≡ (
          if contains tables t
          then or_else (scan_table columns_of database t specs threshold) (lookup t d)
          else lookup t d)
  unfolding scan_tables
  lookup-scan_tables database t specs threshold [] d = refl
  lookup-scan_tables database t specs threshold (table ∷ tables) d =
      lookup-scan_tables database t specs threshold tables
        (record_matches columns_of table (scan_table columns_of database table specs threshold) d)
      ∙ rw (lookup-record_matches t table (scan_table columns_of database table specs threshold) d)
          (merge (text_eq table t) (contains tables t)
            (scan_table columns_of database t specs threshold)
            (scan_table columns_of database table specs threshold) (lookup t d)
            (λ e.
              ap (λ n. scan_table columns_of database n specs threshold)
                ((text_eq_iff table t).0 e)))

  contains-keep :
      (suffix t : Text) (names : List Text)
      → contains (keep (λ n. not (ends_with n suffix)) names) t
        ≡ (contains names t && not (ends_with t suffix))
  contains-keep suffix t [] = refl
  contains-keep suffix t (n ∷ names) =
      ground (arith, text_eq_iff n t, text_eq_iff t n, contains-keep suffix t names)

  some_or_none :
      (b : Bool) (o : Option (List ColumnMatch))
      → (if b then or_else o none else none) ≡ (if b then o else none)
  some_or_none true none = refl
  some_or_none true (some ms) = refl
  some_or_none false o = refl

  -- A scan of a database has an entry for a table exactly if it is one of the base tables, its name
  -- does not end with the suffix of masked views, and its columns can be fetched; the entry is what
  -- the scan of that table alone returns.
  pub scan_database-scan_table :
      (suffix database t : Text) (names : List Text) (specs : List TermSpec) (threshold : ℕ)
      → lookup t (scan_database columns_of suffix database names specs threshold) ≡ (
          if contains names t && not (ends_with t suffix)
          then scan_table columns_of database t specs threshold
          else none)
  unfolding scan_database stardata_tables lookup
  scan_database-scan_table suffix database t names specs threshold =
      lookup-scan_tables database t specs threshold (stardata_tables suffix names) []
      ∙ rw (contains-keep suffix t names) (
          some_or_none (contains names t && not (ends_with t suffix))
            (scan_table columns_of database t specs threshold))
