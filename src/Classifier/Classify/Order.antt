-- ===== src/Classifier/Classify/Order.antt =====
-- One match for each column, in the order of the columns, and from left to right (classifier.py,
-- `classify_columns`).
use stardatadblabs.Base.{ℕ, ◌≡◌, refl, ap, Text, List, [], ◌∷◌, ◌++◌, map, arith}
use stardatadblabs.Classifier.Terms.{ColumnMatch, TermSpec, no_match}
use stardatadblabs.Classifier.Classify.{
  consider, best_of, normalise, classify_column, confirm, classify_from, classify_columns,
}

consider-column_name :
    (col col_lower : Text) (threshold : ℕ) (table : Text) (already : List ColumnMatch)
    (ts : TermSpec) (best : ColumnMatch)
    → best.column_name ≡ col
    → (consider col col_lower threshold table already ts best).column_name ≡ col
unfolding consider
consider-column_name col col_lower threshold table already ts best h = ground arith

best_of-column_name :
    (col col_lower : Text) (threshold : ℕ) (table : Text) (already : List ColumnMatch)
    (specs : List TermSpec) (best : ColumnMatch)
    → best.column_name ≡ col
    → (best_of col col_lower threshold table already specs best).column_name ≡ col
unfolding best_of
best_of-column_name col col_lower threshold table already [] best h = h
best_of-column_name col col_lower threshold table already (ts ∷ specs) best h =
    best_of-column_name col col_lower threshold table already specs _
      (consider-column_name col col_lower threshold table already ts best h)

pub classify_column-column_name :
    (specs : List TermSpec) (threshold : ℕ) (table : Text) (already : List ColumnMatch) (col : Text)
    → (classify_column specs threshold table already col).column_name ≡ col
unfolding classify_column
classify_column-column_name specs threshold table already col =
    best_of-column_name col (normalise col) threshold table already specs (no_match col) refl

-- The accumulator after one more column.
abbrev after : List TermSpec → ℕ → Text → List ColumnMatch → Text → List ColumnMatch
after specs threshold table already col =
    confirm already (classify_column specs threshold table already col)

abbrev names : List ColumnMatch → List Text
names = map (λ m. m.column_name)

classify_from-names :
    (specs : List TermSpec) (threshold : ℕ) (table : Text) (already : List ColumnMatch)
    (cols : List Text)
    → names (classify_from specs threshold table already cols) ≡ cols
unfolding classify_from
classify_from-names specs threshold table already [] = refl
classify_from-names specs threshold table already (col ∷ cols) = cc (
  classify_column-column_name specs threshold table already col,
  classify_from-names specs threshold table (after specs threshold table already col) cols,
)

classify_from-append :
    (specs : List TermSpec) (threshold : ℕ) (table : Text) (already : List ColumnMatch)
    (cols more : List Text)
    → (rest : List ColumnMatch) × (classify_from specs threshold table already (cols ++ more)
        ≡ classify_from specs threshold table already cols ++ rest)
unfolding classify_from
classify_from-append specs threshold table already [] more =
    (classify_from specs threshold table already more, refl)
classify_from-append specs threshold table already (col ∷ cols) more =
    let (rest, e) =
      classify_from-append specs threshold table (after specs threshold table already col) cols
        more in
    (rest, ap (λ ms. classify_column specs threshold table already col ∷ ms) e)

-- There is one match for each column, in the order of the columns; and the matches of the first
-- columns do not depend on the columns that come later.
pub classify_columns_in_order :
    (cols more : List Text) (specs : List TermSpec) (threshold : ℕ) (table : Text)
    → (map (λ m. m.column_name) (classify_columns cols specs threshold table) ≡ cols)
      × ((rest : List ColumnMatch) × (classify_columns (cols ++ more) specs threshold table
            ≡ classify_columns cols specs threshold table ++ rest))
unfolding classify_columns
classify_columns_in_order cols more specs threshold table = (
  classify_from-names specs threshold (normalise table) [] cols,
  classify_from-append specs threshold (normalise table) [] cols more,
)
