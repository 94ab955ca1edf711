-- ===== src/Classifier/Classify/Ranking.antt =====
-- Which term wins a column (classifier.py, `classify_columns` and its `_rank`).
use stardatadblabs.Base.{
  ℕ, ◌≤◌, ◌<◌, ◌≡◌, refl, ap, ◌∙◌, ◌⊎◌, inl, inr, Text, true, false, List, [], ◌∷◌, map, In, arith,
  ltb, Bool-cases,
}
use stardatadblabs.Classifier.Terms.{ColumnMatch, TermSpec, no_match}
use stardatadblabs.Classifier.Score.{base_score}
use stardatadblabs.Classifier.Signals.{is_tagged, signal_d_table_context}
use stardatadblabs.Classifier.Arbitrate.{arbitrate}
use stardatadblabs.Classifier.Classify.{
  assess, candidate, conf_rank, choose, consider, best_of, normalise, classify_column, confirm,
  classify_from, classify_columns,
}

-- The match `m` is at least as good as `c`: by confidence, then by arbitration score.
pub record Outranks (m c : ColumnMatch) : Type 0 where
  pub order :
      (conf_rank c.confidence < conf_rank m.confidence)
      ⊎ (conf_rank c.confidence ≡ conf_rank m.confidence) × (c.arb_score ≤ m.arb_score)

Outranks-trans : {m c d : ColumnMatch} → Outranks m c → Outranks c d → Outranks m d
Outranks-trans h k = ground arith

choose-Outranks :
    (ts : TermSpec) (cand best : ColumnMatch)
    → is_tagged cand.confidence ≡ true
    → Outranks (choose ts cand best) cand
unfolding choose
choose-Outranks ts cand best h = ground arith

choose-Outranks_best :
    (ts : TermSpec) (cand best : ColumnMatch)
    → is_tagged best.confidence ≡ true
    → Outranks (choose ts cand best) best
unfolding choose
choose-Outranks_best ts cand best h = ground arith

tagged_of_Outranks :
    {m c : ColumnMatch}
    → Outranks m c
    → is_tagged c.confidence ≡ true
    → is_tagged m.confidence ≡ true
tagged_of_Outranks h t = ground arith

-- The candidate that one round builds for the term `ts`.
abbrev pub offer : Text → Text → Text → List ColumnMatch → TermSpec → ColumnMatch
offer col col_lower table already ts =
    let (base, pat) = base_score col_lower ts.patterns in
    candidate col ts base (assess col_lower base pat ts already table)

module _ (col col_lower : Text) (threshold : ℕ) (table : Text) (already : List ColumnMatch) where
  consider-Outranks_best :
      (ts : TermSpec) (best : ColumnMatch)
      → is_tagged best.confidence ≡ true
      → Outranks (consider col col_lower threshold table already ts best) best
  unfolding consider
  consider-Outranks_best ts best t =
      elim (Bool-cases (ltb (base_score col_lower ts.patterns).0 threshold)) [
        | inl low ↦ rw low (ground arith)
        | inr enough ↦
            rw enough (choose-Outranks_best ts (offer col col_lower table already ts) best t)
      ]

  consider-Outranks :
      (ts : TermSpec) (best : ColumnMatch)
      → threshold ≤ (base_score col_lower ts.patterns).0
      → is_tagged (offer col col_lower table already ts).confidence ≡ true
      → Outranks
          (consider col col_lower threshold table already ts best)
          (offer col col_lower table already ts)
  unfolding consider
  consider-Outranks ts best h t =
      let enough : ltb (base_score col_lower ts.patterns).0 threshold ≡ false = ground arith in
      rw enough (choose-Outranks ts (offer col col_lower table already ts) best t)

  best_of-Outranks_best :
      (specs : List TermSpec) (best : ColumnMatch)
      → is_tagged best.confidence ≡ true
      → Outranks (best_of col col_lower threshold table already specs best) best
  unfolding best_of
  best_of-Outranks_best [] best t = ground arith
  best_of-Outranks_best (ts ∷ specs) best t =
      let step = consider-Outranks_best ts best t in
      Outranks-trans
        (best_of-Outranks_best specs (consider col col_lower threshold table already ts best)
          (tagged_of_Outranks step t))
        step

  best_of-Outranks :
      (specs : List TermSpec) (best : ColumnMatch) (ts : TermSpec)
      → In ts specs
      → threshold ≤ (base_score col_lower ts.patterns).0
      → is_tagged (offer col col_lower table already ts).confidence ≡ true
      → Outranks
          (best_of col col_lower threshold table already specs best)
          (offer col col_lower table already ts)
  unfolding best_of
  best_of-Outranks [] best ts m h t = absurd m
  best_of-Outranks (s ∷ specs) best ts (inr m) h t = best_of-Outranks specs _ ts m h t
  best_of-Outranks (s ∷ specs) best ts (inl e) h t = rw e (
      let h' : threshold ≤ (base_score col_lower s.patterns).0 = rw e at h in
      let t' : is_tagged (offer col col_lower table already s).confidence ≡ true = rw e at t in
      let step = consider-Outranks s best h' t' in
      Outranks-trans
        (best_of-Outranks_best specs (consider col col_lower threshold table already s best)
          (tagged_of_Outranks step t'))
        step)

-- A column that a term of the glossary would tag, at or above the threshold, gets a tag at least as
-- good as that term's: of a higher confidence, or of the same with no lower arbitration score.
pub classify_column-Outranks :
    (specs : List TermSpec) (threshold : ℕ) (table : Text) (already : List ColumnMatch) (col : Text)
    (ts : TermSpec)
    → In ts specs
    → threshold ≤ (base_score (normalise col) ts.patterns).0
    → is_tagged (offer col (normalise col) table already ts).confidence ≡ true
    → let m = classify_column specs threshold table already col in
      (is_tagged m.confidence ≡ true) × Outranks m (offer col (normalise col) table already ts)
unfolding classify_column
classify_column-Outranks specs threshold table already col ts m h t =
    let r =
      best_of-Outranks col (normalise col) threshold table already specs (no_match col) ts m h t in
    (tagged_of_Outranks r t, r)

-- The terms with other sensitivities.
abbrev pub with_sensitivity : (TermSpec → Text) → TermSpec → TermSpec
with_sensitivity f ts = record ts { classification_sensitivity = f ts }

assess-with_sensitivity :
    (f : TermSpec → Text) (col : Text) (base : ℕ) (pat : Text) (ts : TermSpec)
    (already : List ColumnMatch) (table : Text)
    → assess col base pat (with_sensitivity f ts) already table
      ≡ assess col base pat ts already table
unfolding assess arbitrate signal_d_table_context
assess-with_sensitivity f col base pat ts already table = refl

choose-with_sensitivity :
    (f : TermSpec → Text) (ts : TermSpec) (cand best : ColumnMatch)
    → choose (with_sensitivity f ts) cand best ≡ choose ts cand best
unfolding choose
choose-with_sensitivity f ts cand best = ground arith

consider-with_sensitivity :
    (f : TermSpec → Text) (col col_lower : Text) (threshold : ℕ) (table : Text)
    (already : List ColumnMatch) (ts : TermSpec) (best : ColumnMatch)
    → consider col col_lower threshold table already (with_sensitivity f ts) best
      ≡ consider col col_lower threshold table already ts best
unfolding consider
consider-with_sensitivity f col col_lower threshold table already ts best =
    let base = (base_score col_lower ts.patterns).0 in
    elim (Bool-cases (ltb base threshold)) [
      | inl low ↦ rw low
      | inr enough ↦
          rw (enough, assess-with_sensitivity f col_lower base _ ts already table)
            (choose-with_sensitivity f ts (offer col col_lower table already ts) best)
    ]

best_of-with_sensitivity :
    (f : TermSpec → Text) (col col_lower : Text) (threshold : ℕ) (table : Text)
    (already : List ColumnMatch) (specs : List TermSpec) (best : ColumnMatch)
    → best_of col col_lower threshold table already (map (with_sensitivity f) specs) best
      ≡ best_of col col_lower threshold table already specs best
unfolding best_of
best_of-with_sensitivity f col col_lower threshold table already [] best = refl
best_of-with_sensitivity f col col_lower threshold table already (ts ∷ specs) best =
    best_of-with_sensitivity f col col_lower threshold table already specs
      (consider col col_lower threshold table already (with_sensitivity f ts) best)
    ∙ ap (λ b. best_of col col_lower threshold table already specs b)
        (consider-with_sensitivity f col col_lower threshold table already ts best)

classify_from-with_sensitivity :
    (f : TermSpec → Text) (specs : List TermSpec) (threshold : ℕ) (table : Text)
    (already : List ColumnMatch) (cols : List Text)
    → classify_from (map (with_sensitivity f) specs) threshold table already cols
      ≡ classify_from specs threshold table already cols
unfolding classify_from
classify_from-with_sensitivity f specs threshold table already [] = refl
classify_from-with_sensitivity f specs threshold table already (col ∷ cols) =
    rw (best_of-with_sensitivity f col (normalise col) threshold table already specs (no_match col))
      (ap (λ ms. classify_column specs threshold table already col ∷ ms)
        (classify_from-with_sensitivity f specs threshold table
          (confirm already (classify_column specs threshold table already col)) cols))

-- The sensitivities of the classifications never decide: with any others the result is the same.
pub classify_columns-with_sensitivity :
    (f : TermSpec → Text) (cols : List Text) (specs : List TermSpec) (threshold : ℕ) (table : Text)
    → classify_columns cols (map (with_sensitivity f) specs) threshold table
      ≡ classify_columns cols specs threshold table
unfolding classify_columns
classify_columns-with_sensitivity f cols specs threshold table =
    classify_from-with_sensitivity f specs threshold (normalise table) [] cols
