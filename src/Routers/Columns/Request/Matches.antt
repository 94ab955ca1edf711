-- ===== src/Routers/Columns/Request/Matches.antt =====
-- The matches of a scan request, and the terms that justify them (routers/columns.py with
-- classifier.py).
use stardatadblabs.Base.{
  ℕ, ◌≡◌, refl, sym, ap, ◌∙◌, ◌⊎◌, inl, inr, Text, text_eq, true, false, Option, none, some, List,
  [], ◌∷◌, In, All, Bool-cases,
}
use mathlib.Core.Path.{subst}
use stardatadblabs.Base.Dict.{Dict, insert}
use stardatadblabs.Classifier.Terms.{Confidence, ColumnMatch, TermSpec}
use stardatadblabs.Classifier.Signals.{is_tagged}
use stardatadblabs.Classifier.Classify.{classify_columns, normalise}
use stardatadblabs.Classifier.Classify.Provenance.{IsJustified, classify_columns-IsJustified}
use stardatadblabs.Classifier.Scan.{
  scan_table, record_matches, scan_tables, scan_database, stardata_tables,
}
use stardatadblabs.Routers.Columns.Scan.{is_reject, is_low}
use stardatadblabs.Routers.Columns.Request.{one_table, all_tables, tables_matches}

In-insert :
    {A : Type 0} (x : Text × A) (k : Text) (v : A) (d : Dict A)
    → In x (insert k v d)
    → (x ≡ (k, v)) ⊎ In x d
unfolding insert
In-insert x k v [] (inl e) = inl e
In-insert x k v [] (inr m) = absurd m
In-insert x k v ((j, w) ∷ d) m = elim (Bool-cases (text_eq j k)) [
  | inl e ↦ elim (rw e at m) [ inl q ↦ inl q | inr i ↦ inr (inr i) ]
  | inr e ↦ elim (rw e at m) [
    | inl q ↦ inr (inl q)
    | inr i ↦ elim (In-insert x k v d i) [ inl q ↦ inl q | inr j ↦ inr (inr j) ]
  ]
]

pub All-In : {A : Type 0} (P : A → Type 0) (a : A) (xs : List A) → All P xs → In a xs → P a
All-In P a [] h m = absurd m
All-In P a (x ∷ xs) (p, h) (inl e) = subst P (sym e) p
All-In P a (x ∷ xs) (p, h) (inr m) = All-In P a xs h m

pub taggable : (c : Confidence) → is_reject c ≡ false → is_low c ≡ false → is_tagged c ≡ true
taggable Confidence.high r l = refl
taggable Confidence.medium r l = refl
taggable Confidence.low r l = cc
taggable Confidence.reject r l = cc

module _ (columns_of : Text → Text → Option (List Text)) where
  In-scan_tables :
      (database : Text) (specs : List TermSpec) (threshold : ℕ) (tables : List Text)
      (d : Dict (List ColumnMatch)) (t : Text) (ms : List ColumnMatch)
      → In (t, ms) (scan_tables columns_of database specs threshold tables d)
      → In (t, ms) d ⊎ (scan_table columns_of database t specs threshold ≡ some ms)
  unfolding scan_tables
  In-scan_tables database specs threshold [] d t ms m = inl m
  In-scan_tables database specs threshold (table ∷ tables) d t ms m =
      let o = scan_table columns_of database table specs threshold in
      elim (In-scan_tables database specs threshold tables (record_matches columns_of table o d) t
        ms m) [ inr e ↦ inr e | inl i ↦ recorded o refl i ]
    where
      recorded :
          (o : Option (List ColumnMatch))
          → scan_table columns_of database table specs threshold ≡ o
          → In (t, ms) (record_matches columns_of table o d)
          → In (t, ms) d ⊎ (scan_table columns_of database t specs threshold ≡ some ms)
      recorded none e i = inl i
      recorded (some x) e i = elim (In-insert (t, ms) table x d i) [
        | inr j ↦ inl j
        | inl q ↦ inr (
            ap (λ p. scan_table columns_of database p.0 specs threshold) q
            ∙ e
            ∙ sym (ap (λ p. some p.1) q))
      ]

  abbrev AllJustified : List TermSpec → ℕ → Text → List ColumnMatch → Type 0
  AllJustified specs threshold t ms =
      All (λ m. IsJustified specs threshold (normalise t) (normalise m.column_name) m) ms

  abbrev or_nil : Option (List ColumnMatch) → List ColumnMatch
  or_nil none = []
  or_nil (some ms) = ms

  pub scan_table-AllJustified :
      (database t : Text) (specs : List TermSpec) (threshold : ℕ) (ms : List ColumnMatch)
      → scan_table columns_of database t specs threshold ≡ some ms
      → AllJustified specs threshold t ms
  unfolding scan_table
  scan_table-AllJustified database t specs threshold ms e = fetched (columns_of database t) e
    where
      fetched :
          (o : Option (List Text))
          → elim o as (λ x. Option (List ColumnMatch)) [
            | none ↦ none
            | some cols ↦ some (classify_columns cols specs threshold t)
          ]
            ≡ some ms
          → AllJustified specs threshold t ms
      fetched none q = cc
      fetched (some cols) q =
          subst (AllJustified specs threshold t) (ap or_nil q)
            (classify_columns-IsJustified cols specs threshold t)

  database_entry :
      (suffix database : Text) (names : List Text) (specs : List TermSpec) (threshold : ℕ)
      (t : Text) (ms : List ColumnMatch)
      → In (t, ms) (scan_database columns_of suffix database names specs threshold)
      → scan_table columns_of database t specs threshold ≡ some ms
  unfolding scan_database
  database_entry suffix database names specs threshold t ms m =
      elim (In-scan_tables database specs threshold (stardata_tables suffix names) [] t ms m) [
        | inl i ↦ absurd i
        | inr e ↦ e
      ]

  abbrev or_empty : Option (Dict (List ColumnMatch)) → Dict (List ColumnMatch)
  or_empty none = []
  or_empty (some d) = d

  module _ (suffix : Text) (names_of : Text → Option (List Text)) where
    one_entry :
        (database table : Text) (specs : List TermSpec) (threshold : ℕ)
        (o : Option (List ColumnMatch)) (found : Dict (List ColumnMatch)) (t : Text)
        (ms : List ColumnMatch)
        → scan_table columns_of database table specs threshold ≡ o
        → one_table columns_of suffix names_of table o ≡ some found
        → In (t, ms) found
        → scan_table columns_of database t specs threshold ≡ some ms
    one_entry database table specs threshold none found t ms q e i = cc
    one_entry database table specs threshold (some x) found t ms q e i =
        elim (subst (λ d. In (t, ms) d) (sym (ap or_empty e)) i) [
          | inr j ↦ absurd j
          | inl p ↦
              ap (λ y. scan_table columns_of database y.0 specs threshold) p
              ∙ q
              ∙ sym (ap (λ y. some y.1) p)
        ]

    all_scanned :
        (database : Text) (specs : List TermSpec) (threshold : ℕ) (o : Option (List Text))
        (found : Dict (List ColumnMatch)) (t : Text) (ms : List ColumnMatch)
        → all_tables columns_of suffix names_of database specs threshold o ≡ some found
        → In (t, ms) found
        → scan_table columns_of database t specs threshold ≡ some ms
    all_scanned database specs threshold none found t ms e i = cc
    all_scanned database specs threshold (some names) found t ms e i =
        database_entry suffix database names specs threshold t ms
          (subst (λ d. In (t, ms) d) (sym (ap or_empty e)) i)

    pub matches_scanned :
        (database : Text) (table : Option Text) (specs : List TermSpec) (threshold : ℕ)
        (found : Dict (List ColumnMatch)) (t : Text) (ms : List ColumnMatch)
        → tables_matches columns_of suffix names_of database table specs threshold ≡ some found
        → In (t, ms) found
        → scan_table columns_of database t specs threshold ≡ some ms
    unfolding tables_matches
    matches_scanned database none specs threshold found t ms e i =
        all_scanned database specs threshold (names_of database) found t ms e i
    matches_scanned database (some []) specs threshold found t ms e i =
        all_scanned database specs threshold (names_of database) found t ms e i
    matches_scanned database (some (c ∷ cs)) specs threshold found t ms e i =
        one_entry database (c ∷ cs) specs threshold
          (scan_table columns_of database (c ∷ cs) specs threshold) found t ms refl e i
