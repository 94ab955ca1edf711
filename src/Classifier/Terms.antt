-- ===== src/Classifier/Terms.antt =====
-- The data of the classifier (classifier.py, `Confidence`, `ColumnMatch`, `TermSpec`). A score is
-- kept in hundredths. The explanatory strings of the arbitration are kept as the template that was
-- chosen with the values put into it.
use stardatadblabs.Base.{
  ℕ, Text, codes, text_eq, Bool, false, Option, none, List, [], if◌then◌else◌,
}

pub data Confidence : Type 0 where
  high medium low reject : Confidence

-- One constructor for each template of the file.
pub data Signal : Type 0 where
  a_prefix a_suffix a_prefix_underscore a_suffix_underscore a_middle : Text → Text → Signal
  b_no_class b_no_context : Signal
  b_strong_context : ℕ → Text → Signal
  b_weak_context : Text → Signal
  c_negative_guard c_negative_prefix : Text → Text → Signal
  d_table_reject_word d_table_reject_edge d_table_boost_word d_table_boost_edge :
      Text → Text → Signal
  d_table_neutral : Text → Signal
  arb_total : ℕ → Signal
  base_hit base_direct : ℕ → Signal

pub record ColumnMatch : Type 0 where
  pub column_name : Text
  pub term_id : Option ℕ
  pub term_name : Option Text
  pub classification_id : Option ℕ
  pub classification_name : Option Text
  pub score : ℕ
  pub confidence : Confidence
  pub arb_score : ℕ
  pub arb_signals : List Signal
  pub use_conservative_policy : Bool

-- `ColumnMatch(column_name=col, confidence=Confidence.LOW)`: the defaults of the dataclass.
abbrev pub no_match : Text → ColumnMatch
no_match col = record {
  column_name = col;
  term_id = none;
  term_name = none;
  classification_id = none;
  classification_name = none;
  score = 0;
  confidence = low;
  arb_score = 0;
  arb_signals = [];
  use_conservative_policy = false;
}

pub record TermSpec : Type 0 where
  pub id : ℕ
  pub name : Text
  pub classification_id : Option ℕ
  pub classification_name : Option Text
  pub classification_sensitivity : Text
  pub patterns : List Text
  pub negative_patterns : List Text
  pub table_name_negative_patterns : List Text
  pub table_name_positive_patterns : List Text

-- `_SENSITIVITY_RANK.get(sensitivity, 0)`
unfoldable pub sensitivity_rank : Text → ℕ
sensitivity_rank s =
    if text_eq s (codes "low")
    then 0
    else if text_eq s (codes "medium")
    then 1
    else if text_eq s (codes "high")
    then 2
    else if text_eq s (codes "critical")
    then 3
    else 0

-- `_BASE_THRESHOLD`, `_ARB_MEDIUM_THRESHOLD` and `_ARB_HIGH_THRESHOLD`, in hundredths.
abbrev pub base_threshold : ℕ
base_threshold = 70

abbrev pub arb_medium_threshold : ℕ
arb_medium_threshold = 85

abbrev pub arb_high_threshold : ℕ
arb_high_threshold = 95
