-- ===== src/Classifier/Score/Tiers.antt =====
-- The base score against the tiers of classifier.py's description: the best tier of any pattern.
use Prim.Native.Nat.{max}
use stardatadblabs.Base.{
  ℕ, ◌≤◌, ◌<◌, ◌≡◌, refl, ap, sym, ◌∙◌, Text, text_eq, has_infix, false, not, ◌&&◌, List, [], ◌∷◌,
  In, ◌⊎◌, inl, inr, arith, if◌then◌else◌, Bool-cases,
}
use stardatadblabs.Classifier.Score.{
  word_search, is_empty, raise_score, base_score_from, base_score,
}

-- The tier of one pattern: 1.0 exact, 0.9 at word boundaries, 0.7 anywhere, 0.0 otherwise.
abbrev pub tier : Text → Text → ℕ
tier col pat =
    if is_empty pat
    then 0
    else if text_eq col pat
    then 100
    else if word_search pat col
    then 90
    else if has_infix col pat
    then 70
    else 0

abbrev pub best_tier : Text → List Text → ℕ
best_tier col [] = 0
best_tier col (pat ∷ pats) = max (tier col pat) (best_tier col pats)

tier-le : (col pat : Text) → tier col pat ≤ 100
tier-le col pat = ground arith

best_tier-le : (col : Text) (pats : List Text) → best_tier col pats ≤ 100
best_tier-le col [] = omega arith
best_tier-le col (pat ∷ pats) = omega (arith, tier-le col pat, best_tier-le col pats)

raise_score-max :
    (col pat : Text) (best : ℕ × Text)
    → tier col pat < 100
    → (raise_score col pat best).0 ≡ max best.0 (tier col pat)
unfolding raise_score
raise_score-max col pat best h = ground arith

base_score_from-max :
    (col : Text) (pats : List Text) (best : ℕ × Text)
    → best.0 ≤ 90
    → (base_score_from col pats best).0 ≡ max best.0 (best_tier col pats)
unfolding base_score_from
base_score_from-max col [] best h = omega arith
base_score_from-max col (pat ∷ pats) best h =
    elim (Bool-cases (not (is_empty pat) && text_eq col pat)) [
      | inl exact ↦ rw exact (ground (arith, best_tier-le col pats))
      | inr more ↦ rw more (
          let p : tier col pat ≤ 90 = ground arith in
          let r : (raise_score col pat best).0 ≡ max best.0 (tier col pat) =
            raise_score-max col pat best (omega arith) in
          omega (arith, base_score_from-max col pats (raise_score col pat best) (omega arith), r))
    ]

-- The matched pattern has the score as its tier, once there is a score.
abbrev Matches : Text → List Text → ℕ × Text → Type 0
Matches col pats (score, pat) = In pat pats × (tier col pat ≡ score)

raise_score-cases :
    (col pat : Text) (best : ℕ × Text)
    → (not (is_empty pat) && text_eq col pat) ≡ false
    → (raise_score col pat best ≡ best) ⊎ (raise_score col pat best ≡ (tier col pat, pat))
unfolding raise_score
raise_score-cases col pat best h = ground arith

base_score_from-cases :
    (col : Text) (pats : List Text) (best r : ℕ × Text)
    → base_score_from col pats best ≡ r
    → (r ≡ best) ⊎ Matches col pats r
unfolding base_score_from
base_score_from-cases col [] best r h = inl (sym h)
base_score_from-cases col (pat ∷ pats) best r h =
    elim (Bool-cases (not (is_empty pat) && text_eq col pat)) [
      | inl exact ↦ rw (sym (rw exact at h)) (inr (inl refl, ground arith))
      | inr more ↦
          elim (base_score_from-cases col pats (raise_score col pat best) r (rw more at h)) [
            | inr (m, t) ↦ inr (inr m, t)
            | inl e ↦ elim (raise_score-cases col pat best more) [
              | inl same ↦ inl (e ∙ same)
              | inr new ↦ rw (e, new) (inr (inl refl, refl))
            ]
          ]
    ]

-- The base score is the best tier that any of the term's patterns reaches, and a score above zero
-- comes with a pattern of the term that reaches it.
pub base_score-best_tier :
    (col : Text) (pats : List Text)
    → let (score, pat) = base_score col pats in
      (score ≡ best_tier col pats) × (0 < score → In pat pats × (tier col pat ≡ score))
unfolding base_score
base_score-best_tier col pats = (
  omega (arith, base_score_from-max col pats (0, []) (omega arith)),
  λ h. elim (base_score_from-cases col pats (0, []) _ refl) [
    | inl none_yet ↦ absurd (omega (arith, ap (λ (r : ℕ × Text). r.0) none_yet))
    | inr found ↦ found
  ],
)
