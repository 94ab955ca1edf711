-- ===== src/Classifier/Arbitrate/Verdicts.antt =====
-- What the arbitration of a substring hit needs for each verdict (classifier.py, `_arbitrate`).
use stardatadblabs.Base.{
  ℕ, ◌+◌, ◌≤◌, ◌≡◌, refl, ◌≢◌, ◌⊎◌, ◌↔◌, Text, Bool, true, false, not, ◌&&◌, ◌||◌, Option, none,
  some, is_some, List, any, arith, ltb, if◌then◌else◌,
}
use stardatadblabs.Classifier.Terms.{Confidence, ColumnMatch, TermSpec}
use stardatadblabs.Classifier.Score.{is_empty}
use stardatadblabs.Classifier.Signals.{
  signal_a_position, signal_b_sibling_context, signal_c_negative_guard, signal_d_table_context,
}
use stardatadblabs.Classifier.Signals.Guards.{fits, signal_d_table_context-cases}
use stardatadblabs.Classifier.Arbitrate.{verdict, arbitrate}

-- A guard fires: Signal C on the column's name, or Signal D on the table's, if that is known.
abbrev pub guarded : Text → TermSpec → Text → Bool
guarded col ts table =
    is_some (signal_c_negative_guard col ts.negative_patterns)
    || not (is_empty table) && any (fits table) ts.table_name_negative_patterns

-- Signal D's boost, 0 if the table's name is not known.
abbrev pub context_boost : Text → TermSpec → ℕ
context_boost table ts = if is_empty table then 0 else (signal_d_table_context table ts).1

-- How many of three boosts are above zero.
abbrev pub fired : ℕ → ℕ → ℕ → ℕ
fired a b d = (if ltb 0 a then 1 else 0) + (if ltb 0 b then 1 else 0) + (if ltb 0 d then 1 else 0)

position_values :
    (col pat : Text) → let a = (signal_a_position col pat).0 in (a ≡ 0) ⊎ (a ≡ 10) ⊎ (a ≡ 15)
unfolding signal_a_position
position_values col pat = ground arith

sibling_values :
    (name : Option Text) (already : List ColumnMatch)
    → let b = (signal_b_sibling_context name already).0 in (b ≡ 0) ⊎ (b ≡ 12) ⊎ (b ≡ 20)
unfolding signal_b_sibling_context
sibling_values none already = ground arith
sibling_values (some name) already = ground arith

table_values : (table : Text) (ts : TermSpec) → let d = context_boost table ts in (d ≡ 0) ⊎ (d ≡ 20)
table_values table ts = ground (arith, signal_d_table_context-cases table ts)

-- Without a guard the verdict is that of the sum; with one it is REJECT with a score of 0.
arbitrate-sum :
    (col pat : Text) (ts : TermSpec) (already : List ColumnMatch) (table : Text)
    → let total =
        70
        + (signal_a_position col pat).0
        + (signal_b_sibling_context ts.classification_name already).0
        + context_boost table ts in
      let (confidence, arb_score, _) = arbitrate col pat ts already table in
      (confidence ≡ (if guarded col ts table then Confidence.reject else verdict total))
      × (arb_score ≡ (if guarded col ts table then 0 else total))
unfolding arbitrate
arbitrate-sum col pat ts already table = ground (arith, signal_d_table_context-cases table ts)

-- What a verdict tells of the number `n` of signals that have raised the total.
abbrev pub Support : Confidence → ℕ → Type 0
Support c n =
    (c ≡ Confidence.high → 2 ≤ n)
    × (c ≡ Confidence.medium → (1 ≤ n) × (n ≤ 2))
    × (c ≡ Confidence.low → n ≤ 1)

verdict-Support :
    (a b d : ℕ)
    → (a ≡ 0) ⊎ (a ≡ 10) ⊎ (a ≡ 15)
    → (b ≡ 0) ⊎ (b ≡ 12) ⊎ (b ≡ 20)
    → (d ≡ 0) ⊎ (d ≡ 20)
    → let c = verdict (70 + a + b + d) in (c ≢ Confidence.reject) × Support c (fired a b d)
unfolding verdict
verdict-Support a b d ha hb hd = (ground arith, (ground arith, ground arith, ground arith))

guarded-Support :
    (c w : Confidence) (g : Bool) (n : ℕ)
    → c ≡ (if g then Confidence.reject else w)
    → (w ≢ Confidence.reject) × Support w n
    → ((c ≡ Confidence.reject) ↔ (g ≡ true)) × Support c n
guarded-Support c w true n e (ne, h) = rw e ((λ _. refl, λ _. refl), (λ h. cc, λ h. cc, λ h. cc))
guarded-Support c w false n e (ne, h) = rw e ((λ r. absurd (ne r), λ h. cc), h)

-- A substring hit is rejected exactly if Signal C or Signal D rejects. HIGH needs at least two of
-- the three boosts (position, siblings, table), MEDIUM one or two, and LOW means one at most.
pub arbitrate_verdicts :
    (col pat : Text) (ts : TermSpec) (already : List ColumnMatch) (table : Text)
    → let c = (arbitrate col pat ts already table).0 in
      ((c ≡ Confidence.reject) ↔ (guarded col ts table ≡ true))
      × Support c (
          fired
            (signal_a_position col pat).0
            (signal_b_sibling_context ts.classification_name already).0
            (context_boost table ts))
arbitrate_verdicts col pat ts already table =
    guarded-Support _ _ _ _ (arbitrate-sum col pat ts already table).0 (
      verdict-Support _ _ _ (position_values col pat)
        (sibling_values ts.classification_name already) (table_values table ts))
