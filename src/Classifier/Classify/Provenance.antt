-- ===== src/Classifier/Classify/Provenance.antt =====
-- Where a match that produces a tag comes from (classifier.py, `classify_columns`).
use stardatadblabs.Base.{
  ℕ, ◌≤◌, ◌<◌, ◌≡◌, refl, ◌⊎◌, inl, inr, Text, Bool, true, false, not, ◌&&◌, some, is_some, List,
  [], ◌∷◌, In, All, any, arith, ltb, Bool-cases,
}
use stardatadblabs.Classifier.Terms.{Confidence, ColumnMatch, TermSpec, no_match}
use stardatadblabs.Classifier.Score.{base_score, is_empty}
use stardatadblabs.Classifier.Signals.{is_tagged, signal_c_negative_guard}
use stardatadblabs.Classifier.Signals.Guards.{fits, signal_d_table_context-cases}
use stardatadblabs.Classifier.Arbitrate.Verdicts.{arbitrate_verdicts}
use stardatadblabs.Classifier.Classify.{
  direct, assess, is_medium, candidate, choose, consider, best_of, normalise, classify_column,
  confirm, classify_from, classify_columns,
}
use stardatadblabs.Classifier.Classify.Order.{classify_column-column_name}

-- No negative table pattern of the term fits the table's name.
abbrev pub table_guarded : Text → TermSpec → Bool
table_guarded table ts = not (is_empty table) && any (fits table) ts.table_name_negative_patterns

-- The column's match is the term's, it has reached the threshold, no negative table pattern of the
-- term fits the table, and no negative column pattern of it one that is not exact and not at word
-- boundaries; only such a one is of MEDIUM confidence.
pub record IsFrom (threshold : ℕ) (table : Text) (col_lower : Text) (m : ColumnMatch)
    (ts : TermSpec) : Type 0 where
  pub term : m.term_id ≡ some ts.id
  pub term_name : m.term_name ≡ some ts.name
  pub class_id : m.classification_id ≡ ts.classification_id
  pub class_name : m.classification_name ≡ ts.classification_name
  pub scored : m.score ≡ (base_score col_lower ts.patterns).0
  pub reached : threshold ≤ m.score
  pub table_allowed : table_guarded table ts ≡ false
  pub column_allowed :
      m.score < 90 → is_some (signal_c_negative_guard col_lower ts.negative_patterns) ≡ false
  pub conservative : m.use_conservative_policy ≡ is_medium m.confidence
  pub medium_score : m.confidence ≡ Confidence.medium → m.score < 90

direct-allowed :
    (base : ℕ) (ts : TermSpec) (table : Text)
    → is_tagged (direct base ts table).0 ≡ true
    → ((direct base ts table).0 ≡ Confidence.high) × (table_guarded table ts ≡ false)
unfolding direct
direct-allowed base ts table h = ground (arith, signal_d_table_context-cases table ts)

assess-allowed :
    (col_lower : Text) (base : ℕ) (pat : Text) (ts : TermSpec) (already : List ColumnMatch)
    (table : Text)
    → is_tagged (assess col_lower base pat ts already table).0 ≡ true
    → (table_guarded table ts ≡ false)
      × (base < 90 → is_some (signal_c_negative_guard col_lower ts.negative_patterns) ≡ false)
      × ((assess col_lower base pat ts already table).0 ≡ Confidence.medium → base < 90)
unfolding assess
assess-allowed col_lower base pat ts already table h =
    ground (arith, direct-allowed base ts table, arbitrate_verdicts col_lower pat ts already table)

-- A match that produces a tag is from one of the terms.
abbrev pub IsJustified : List TermSpec → ℕ → Text → Text → ColumnMatch → Type 0
IsJustified specs threshold table col_lower m =
    is_tagged m.confidence ≡ true
    → (ts : TermSpec) × In ts specs × IsFrom threshold table col_lower m ts

candidate-IsFrom :
    (col col_lower : Text) (threshold : ℕ) (table : Text) (already : List ColumnMatch)
    (ts : TermSpec)
    → let (base, pat) = base_score col_lower ts.patterns in
      let m = candidate col ts base (assess col_lower base pat ts already table) in
      ltb base threshold ≡ false
      → is_tagged m.confidence ≡ true
      → IsFrom threshold table col_lower m ts
unfolding candidate
candidate-IsFrom col col_lower threshold table already ts h t =
    let (base, pat) = base_score col_lower ts.patterns in
    let (allowed, guard, medium) = assess-allowed col_lower base pat ts already table t in
    record {
      term = refl;
      term_name = refl;
      class_id = refl;
      class_name = refl;
      scored = refl;
      reached = ground arith;
      table_allowed = allowed;
      column_allowed = guard;
      conservative = refl;
      medium_score = medium;
    }

choose-cases :
    (ts : TermSpec) (cand best : ColumnMatch)
    → (choose ts cand best ≡ cand) ⊎ (choose ts cand best ≡ best)
unfolding choose
choose-cases ts cand best = ground arith

module _ (specs : List TermSpec) (col col_lower : Text) (threshold : ℕ) (table : Text)
    (already : List ColumnMatch) where
  consider-IsJustified :
      (ts : TermSpec) (best : ColumnMatch)
      → In ts specs
      → IsJustified specs threshold table col_lower best
      → IsJustified specs threshold table col_lower
          (consider col col_lower threshold table already ts best)
  unfolding consider
  consider-IsJustified ts best m h =
      let (base, pat) = base_score col_lower ts.patterns in
      let cand = candidate col ts base (assess col_lower base pat ts already table) in
      elim (Bool-cases (ltb base threshold)) [
        | inl low ↦ rw low h
        | inr enough ↦ rw enough (elim (choose-cases ts cand best) [
          | inl new ↦
              rw new
                (λ t. (ts, m, candidate-IsFrom col col_lower threshold table already ts enough t))
          | inr old ↦ rw old h
        ])
      ]

  best_of-IsJustified :
      (more : List TermSpec) (best : ColumnMatch)
      → ((ts : TermSpec) → In ts more → In ts specs)
      → IsJustified specs threshold table col_lower best
      → IsJustified specs threshold table col_lower
          (best_of col col_lower threshold table already more best)
  unfolding best_of
  best_of-IsJustified [] best sub h = h
  best_of-IsJustified (ts ∷ more) best sub h =
      best_of-IsJustified more _ (λ t m. sub t (inr m))
        (consider-IsJustified ts best (sub ts (inl refl)) h)

classify_column-IsJustified :
    (specs : List TermSpec) (threshold : ℕ) (table : Text) (already : List ColumnMatch) (col : Text)
    → IsJustified specs threshold table
        (normalise col)
        (classify_column specs threshold table already col)
unfolding classify_column
classify_column-IsJustified specs threshold table already col =
    best_of-IsJustified specs col (normalise col) threshold table already specs (no_match col)
      (λ ts m. m) (λ h. cc)

classify_from-IsJustified :
    (specs : List TermSpec) (threshold : ℕ) (table : Text) (already : List ColumnMatch)
    (cols : List Text)
    → All
        (λ m. IsJustified specs threshold table (normalise m.column_name) m)
        (classify_from specs threshold table already cols)
unfolding classify_from
classify_from-IsJustified specs threshold table already [] = tt
classify_from-IsJustified specs threshold table already (col ∷ cols) = (
  rw (classify_column-column_name specs threshold table already col)
      (classify_column-IsJustified specs threshold table already col),
  classify_from-IsJustified specs threshold table
      (confirm already (classify_column specs threshold table already col)) cols,
)

-- Every match that produces a tag is from a term of the glossary: it names the term and its
-- classification, its score is the term's base score of the column and has reached the threshold,
-- no negative table pattern of the term fits the table, no negative pattern of the term stands in a
-- column that was a mere substring hit, and only such a hit is tagged with MEDIUM confidence.
pub classify_columns-IsJustified :
    (cols : List Text) (specs : List TermSpec) (threshold : ℕ) (table : Text)
    → All
        (λ m. IsJustified specs threshold (normalise table) (normalise m.column_name) m)
        (classify_columns cols specs threshold table)
unfolding classify_columns
classify_columns-IsJustified cols specs threshold table =
    classify_from-IsJustified specs threshold (normalise table) [] cols
