-- ===== src/Classifier/Arbitrate.antt =====
-- The arbitration of a substring hit (classifier.py, `_arbitrate`).
pub mod Verdicts
use stardatadblabs.Base.{
  ℕ, ◌+◌, Text, Bool, true, false, Option, none, some, List, [], ◌∷◌, ◌++◌, leb, if◌then◌else◌,
}
use stardatadblabs.Classifier.Terms.{
  Confidence, Signal, ColumnMatch, TermSpec, arb_high_threshold, arb_medium_threshold,
}
use stardatadblabs.Classifier.Score.{is_empty}
use stardatadblabs.Classifier.Signals.{
  signal_a_position, signal_b_sibling_context, signal_c_negative_guard, signal_d_table_context,
}

-- The verdict that the thresholds give a total.
unfoldable pub verdict : ℕ → Confidence
verdict total =
    if leb arb_high_threshold total
    then Confidence.high
    else if leb arb_medium_threshold total
    then Confidence.medium
    else Confidence.low

-- Signals A and B and the total, once neither guard has fired. `signals` is what D has appended.
unfoldable pub weigh :
    Text → Text → TermSpec → List ColumnMatch → ℕ → List Signal → Confidence × ℕ × List Signal
unfolding verdict
weigh col pat ts already d_boost signals =
    let (a_boost, a_desc) = signal_a_position col pat in
    let (b_boost, b_desc) = signal_b_sibling_context ts.classification_name already in
    let total = 70 + a_boost + b_boost + d_boost in
    (verdict total, total, signals ++ (a_desc ∷ b_desc ∷ Signal.arb_total total ∷ []))

-- Signal D, where the table's name is known.
unfoldable pub arbitrate_table :
    Text → Text → TermSpec → List ColumnMatch → Text → Confidence × ℕ × List Signal
unfolding weigh
arbitrate_table col pat ts already table =
    let (rejected, boost, desc) = signal_d_table_context table ts in
    if rejected
    then (Confidence.reject, 0, desc ∷ [])
    else weigh col pat ts already boost (desc ∷ [])

unfoldable pub arbitrate :
    Text → Text → TermSpec → List ColumnMatch → Text → Confidence × ℕ × List Signal
unfolding arbitrate_table
arbitrate col pat ts already table = elim (signal_c_negative_guard col ts.negative_patterns) [
  | some reason ↦ (Confidence.reject, 0, reason ∷ [])
  | none ↦
      if is_empty table
      then weigh col pat ts already 0 []
      else arbitrate_table col pat ts already table
]
