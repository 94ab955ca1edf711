-- ===== src/Classifier/Signals.antt =====
-- Stage 2: the four signals (classifier.py, `_signal_A_position` to `_signal_D_table_context`).
pub mod Guards
use stardatadblabs.Base.{
  ℕ, ◌≤◌, Text, text_eq, starts_with, ends_with, Bool, true, false, not, ◌&&◌, ◌||◌, Option, none,
  some, List, [], ◌∷◌, ◌++◌, keep, length, leb, ◌==◌, if◌then◌else◌,
}
use stardatadblabs.Classifier.Terms
use stardatadblabs.Classifier.Terms.{Confidence, Signal, ColumnMatch, TermSpec}
use stardatadblabs.Classifier.Score.{word_search, is_empty}

-- `"_"`
abbrev underscore : Text
underscore = b'_' ∷ []

unfoldable pub signal_a_position : Text → Text → ℕ × Signal
signal_a_position col pat =
    if starts_with col pat
    then (15, Signal.a_prefix pat col)
    else if ends_with col pat
    then (10, Signal.a_suffix pat col)
    else if starts_with col (pat ++ underscore)
    then (15, Signal.a_prefix_underscore pat col)
    else if ends_with col (underscore ++ pat)
    then (10, Signal.a_suffix_underscore pat col)
    else (0, Signal.a_middle pat col)

abbrev pub is_tagged : Confidence → Bool
is_tagged Confidence.high = true
is_tagged Confidence.medium = true
is_tagged Confidence.low = false
is_tagged Confidence.reject = false

-- `m.classification_name == classification_name`
abbrev named : Text → Option Text → Bool
named name none = false
named name (some n) = text_eq n name

abbrev pub is_sibling : Text → ColumnMatch → Bool
is_sibling name m = is_tagged m.confidence && named name m.classification_name

-- The count of confirmed siblings, and the class.
unfoldable pub sibling_boost : Text → ℕ → ℕ × Signal
sibling_boost name n =
    if leb 2 n
    then (20, Signal.b_strong_context n name)
    else if n == 1
    then (12, Signal.b_weak_context name)
    else (0, Signal.b_no_context)

unfoldable pub signal_b_sibling_context : Option Text → List ColumnMatch → ℕ × Signal
unfolding sibling_boost
signal_b_sibling_context none already = (0, Signal.b_no_class)
signal_b_sibling_context (some name) already =
    if is_empty name
    then (0, Signal.b_no_class)
    else sibling_boost name (length (keep (is_sibling name) already))

-- The reason of a rejection; none where the source returns `(False, "")`.
unfoldable pub signal_c_negative_guard : Text → List Text → Option Signal
signal_c_negative_guard col [] = none
signal_c_negative_guard col (neg ∷ negs) =
    let rest = signal_c_negative_guard col negs in
    if is_empty neg
    then rest
    else if word_search neg col
    then some (Signal.c_negative_guard neg col)
    else if starts_with col (neg ++ underscore) || text_eq col neg
    then some (Signal.c_negative_prefix neg col)
    else rest

-- The first loop of Signal D: the description of the first pattern that rejects.
unfoldable pub table_reject : Text → List Text → Option Signal
table_reject table [] = none
table_reject table (neg ∷ negs) =
    let rest = table_reject table negs in
    if is_empty neg
    then rest
    else if word_search neg table
    then some (Signal.d_table_reject_word table neg)
    else if starts_with table neg || ends_with table neg
    then some (Signal.d_table_reject_edge table neg)
    else rest

-- The second loop: the boost of the first pattern that fits.
unfoldable pub table_boost : Text → List Text → ℕ × Signal
table_boost table [] = (0, Signal.d_table_neutral table)
table_boost table (pos ∷ poss) =
    let rest = table_boost table poss in
    if is_empty pos
    then rest
    else if word_search pos table
    then (20, Signal.d_table_boost_word table pos)
    else if starts_with table pos || ends_with table pos
    then (20, Signal.d_table_boost_edge table pos)
    else rest

-- `(rejected, boost, description)`
unfoldable pub signal_d_table_context : Text → TermSpec → Bool × ℕ × Signal
unfolding table_reject table_boost
signal_d_table_context table ts = elim (table_reject table ts.table_name_negative_patterns) [
  | some desc ↦ (true, 0, desc)
  | none ↦
      let (boost, desc) = table_boost table ts.table_name_positive_patterns in (false, boost, desc)
]
