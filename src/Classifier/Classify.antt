-- ===== src/Classifier/Classify.antt =====
-- The classification of a table's columns (classifier.py, `classify_columns`).
pub mod Order
pub mod Provenance
pub mod Ranking
use stardatadblabs.Base.{
  ℕ, ◌≤◌, ◌<◌, Text, lower, spaces_to_underscores, Bool, true, false, not, ◌&&◌, ◌||◌, Option, none,
  some, List, [], ◌∷◌, ◌++◌, leb, ltb, ◌==◌, if◌then◌else◌,
}
use stardatadblabs.Classifier.Terms.{
  Confidence, Signal, ColumnMatch, TermSpec, no_match, sensitivity_rank,
}
use stardatadblabs.Classifier.Score.{base_score, is_empty}
use stardatadblabs.Classifier.Signals.{signal_d_table_context, is_tagged}
use stardatadblabs.Classifier.Arbitrate.{arbitrate}

abbrev is_nil {ℓ} : {A : Type ℓ} → List A → Bool
is_nil [] = true
is_nil (x ∷ xs) = false

-- A base score of 0.9 or more: no arbitration, but Signal D may still reject.
unfoldable pub direct : ℕ → TermSpec → Text → Confidence × ℕ × List Signal
direct base ts table =
    if not (is_empty table) && not (is_nil ts.table_name_negative_patterns)
    then (let (rejected, _, desc) = signal_d_table_context table ts in
        if rejected
        then (Confidence.reject, 0, Signal.base_hit base ∷ desc ∷ [])
        else (Confidence.high, base, Signal.base_direct base ∷ desc ∷ []))
    else (Confidence.high, base, Signal.base_direct base ∷ [])

-- The confidence, arbitration score and signals of a hit.
unfoldable pub assess :
    Text → ℕ → Text → TermSpec → List ColumnMatch → Text → Confidence × ℕ × List Signal
unfolding direct
assess col base pat ts already table =
    if leb 90 base then direct base ts table else arbitrate col pat ts already table

abbrev pub is_medium : Confidence → Bool
is_medium Confidence.medium = true
is_medium Confidence.high = false
is_medium Confidence.low = false
is_medium Confidence.reject = false

unfoldable pub candidate : Text → TermSpec → ℕ → Confidence × ℕ × List Signal → ColumnMatch
candidate col ts base (confidence, arb_score, signals) = record {
  column_name = col;
  term_id = some ts.id;
  term_name = some ts.name;
  classification_id = ts.classification_id;
  classification_name = ts.classification_name;
  score = base;
  confidence = confidence;
  arb_score = arb_score;
  arb_signals = signals;
  use_conservative_policy = is_medium confidence;
}

-- `conf_rank`, raised by one, since the source gives REJECT a rank of -1.
abbrev pub conf_rank : Confidence → ℕ
conf_rank Confidence.high = 3
conf_rank Confidence.medium = 2
conf_rank Confidence.low = 1
conf_rank Confidence.reject = 0

-- `_rank`: a closure over the term `ts` at hand, whichever match it is asked about.
abbrev pub rank : TermSpec → ColumnMatch → ℕ × ℕ × ℕ
rank ts m = (conf_rank m.confidence, m.arb_score, sensitivity_rank ts.classification_sensitivity)

-- `a > b` on tuples of three.
abbrev pub tuple_gt : ℕ × ℕ × ℕ → ℕ × ℕ × ℕ → Bool
tuple_gt (a, b, c) (x, y, z) = ltb x a || x == a && (ltb y b || y == b && ltb z c)

-- What becomes of the best match when a candidate has been built.
unfoldable pub choose : TermSpec → ColumnMatch → ColumnMatch → ColumnMatch
choose ts cand best =
    if is_tagged cand.confidence
    then (if tuple_gt (rank ts cand) (rank ts best) then cand else best)
    else (if is_tagged best.confidence then best else cand)

-- One round of the inner loop.
unfoldable pub consider :
    Text → Text → ℕ → Text → List ColumnMatch → TermSpec → ColumnMatch → ColumnMatch
unfolding candidate choose assess
consider col col_lower threshold table already ts best =
    let (base, pat) = base_score col_lower ts.patterns in
    if ltb base threshold
    then best
    else choose ts (candidate col ts base (assess col_lower base pat ts already table)) best

unfoldable pub best_of :
    Text → Text → ℕ → Text → List ColumnMatch → List TermSpec → ColumnMatch → ColumnMatch
unfolding consider
best_of col col_lower threshold table already [] best = best
best_of col col_lower threshold table already (ts ∷ specs) best =
    best_of col col_lower threshold table already specs
      (consider col col_lower threshold table already ts best)

-- `name.lower().replace(" ", "_")`
unfoldable pub normalise : Text → Text
unfolding lower spaces_to_underscores
normalise name = spaces_to_underscores (lower name)

unfoldable pub classify_column : List TermSpec → ℕ → Text → List ColumnMatch → Text → ColumnMatch
unfolding best_of normalise
classify_column specs threshold table already col =
    best_of col (normalise col) threshold table already specs (no_match col)

-- `already_tagged.append(best_match)`, only if it will produce a tag.
unfoldable pub confirm : List ColumnMatch → ColumnMatch → List ColumnMatch
confirm already m = if is_tagged m.confidence then already ++ (m ∷ []) else already

-- The outer loop, with the accumulator of confirmed matches.
unfoldable pub classify_from :
    List TermSpec → ℕ → Text → List ColumnMatch → List Text → List ColumnMatch
unfolding classify_column confirm
classify_from specs threshold table already [] = []
classify_from specs threshold table already (col ∷ cols) =
    let m = classify_column specs threshold table already col in
    m ∷ classify_from specs threshold table (confirm already m) cols

unfoldable pub classify_columns : List Text → List TermSpec → ℕ → Text → List ColumnMatch
unfolding classify_from
classify_columns cols specs threshold table_name =
    classify_from specs threshold (normalise table_name) [] cols
