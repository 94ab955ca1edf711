-- ===== src/Masking/Policy/Top.antt =====
-- The best of the policies that one query returns (masking.py, `_resolve_policy_for_column`).
use stardatadblabs.Base.{
  ℕ, ◌≡◌, refl, ◌⊎◌, inl, inr, Bool, true, false, ◌||◌, Option, none, some, List, [], ◌∷◌, In, any,
  In-any, arith, Bool-cases, Option-cases,
}
use stardatadblabs.Base.Int.{ℤ, ◌≤ℤ◌, ltb_ℤ}
use stardatadblabs.Catalog.Rows.{MaskingPolicy, ColumnTag}
use stardatadblabs.Masking.Policy.{
  higher, top, targets_term, targets_class, term_policy, class_policy,
}

-- `q` is not above `p`.
abbrev pub IsTop : (MaskingPolicy → Bool) → List MaskingPolicy → MaskingPolicy → Type 0
IsTop fits ps p =
    In p ps
    × (fits p ≡ true)
    × ((q : MaskingPolicy) → In q ps → fits q ≡ true → q.priority ≤ℤ p.priority)

pub ≤ℤ-trans : (a b c : ℤ) → a ≤ℤ b → b ≤ℤ c → a ≤ℤ c
≤ℤ-trans a b c h k = omega arith

pub top-none :
    (fits : MaskingPolicy → Bool) (ps : List MaskingPolicy)
    → top fits ps ≡ none
    → any fits ps ≡ false
unfolding top
top-none fits [] h = refl
top-none fits (p ∷ ps) h = elim (Option-cases (top fits ps)) [
  | inl e ↦ ground (arith, top-none fits ps e)
  | inr (q, e) ↦ ground arith
]

-- The choice between a row and the best of the rows after it.
pub higher-some :
    (x : MaskingPolicy) (r : Option MaskingPolicy) (b : MaskingPolicy)
    → higher x r ≡ some b
    → ((b ≡ x) × ((q : MaskingPolicy) → r ≡ some q → q.priority ≤ℤ x.priority))
      ⊎ ((r ≡ some b) × (x.priority ≤ℤ b.priority))
unfolding higher
higher-some x none b h = inl (ground arith, λ q e. cc)
higher-some x (some q) b h = elim (Bool-cases (ltb_ℤ x.priority q.priority)) [
  | inl above ↦ inr (rw above at h, ground arith)
  | inr not_above ↦ inl (ground arith, λ q' e. ground arith)
]

pub none_fits :
    (fits : MaskingPolicy → Bool) (ps : List MaskingPolicy) (q : MaskingPolicy)
    → any fits ps ≡ false
    → In q ps
    → fits q ≡ true
    → ⊥
none_fits fits ps q h m t = cc (In-any fits q ps m t)

pub top-IsTop :
    (fits : MaskingPolicy → Bool) (ps : List MaskingPolicy) (p : MaskingPolicy)
    → top fits ps ≡ some p
    → IsTop fits ps p
unfolding top
top-IsTop fits [] p h = cc
top-IsTop fits (x ∷ ps) p h = elim (Bool-cases (fits x)) [
  | inr skip ↦
      let (m, t, best) = top-IsTop fits ps p (rw skip at h) in
      (inr m, t, λ q i f. elim i [ inl e ↦ cc | inr i' ↦ best q i' f ])
  | inl take ↦ elim (higher-some x (top fits ps) p (rw take at h)) [
    | inr (e, above) ↦
        let (m, t, best) = top-IsTop fits ps p e in
        (inr m, t, λ q i f. elim i [ inl e' ↦ rw e' above | inr i' ↦ best q i' f ])
    | inl (e, below) ↦ (
      inl e,
      rw e take,
      λ q i f. elim i [
        | inl e' ↦ rw (e', e) (omega arith)
        | inr i' ↦ elim (Option-cases (top fits ps)) [
          | inl nothing ↦ absurd (none_fits fits ps q (top-none fits ps nothing) i' f)
          | inr (r, found) ↦
              let (_, _, best) = top-IsTop fits ps r found in
              rw e (≤ℤ-trans q.priority r.priority x.priority (best q i' f) (below r found))
        ]
      ],
    )
  ]
]

-- An enabled policy for the tag's term, and one for its classification.
abbrev pub for_term : Option ℕ → MaskingPolicy → Bool
for_term none p = false
for_term (some t) p = targets_term t p

abbrev pub for_class : Option ℕ → MaskingPolicy → Bool
for_class none p = false
for_class (some k) p = targets_class k p

abbrev pub applies : ColumnTag → MaskingPolicy → Bool
applies tag p = for_term tag.glossary_term_id p || for_class tag.classification_id p

pub any-false : (ps : List MaskingPolicy) → any (λ p. false) ps ≡ false
any-false [] = refl
any-false (p ∷ ps) = any-false ps

pub term_policy-none :
    (o : Option ℕ) (ps : List MaskingPolicy) → term_policy o ps ≡ none → any (for_term o) ps ≡ false
unfolding term_policy
term_policy-none none ps h = any-false ps
term_policy-none (some t) ps h = top-none (targets_term t) ps h

pub term_policy-IsTop :
    (o : Option ℕ) (ps : List MaskingPolicy) (p : MaskingPolicy)
    → term_policy o ps ≡ some p
    → IsTop (for_term o) ps p
unfolding term_policy
term_policy-IsTop none ps p h = cc
term_policy-IsTop (some t) ps p h = top-IsTop (targets_term t) ps p h

pub class_policy-none :
    (o : Option ℕ) (ps : List MaskingPolicy)
    → class_policy o ps ≡ none
    → any (for_class o) ps ≡ false
unfolding class_policy
class_policy-none none ps h = any-false ps
class_policy-none (some k) ps h = top-none (targets_class k) ps h

pub class_policy-IsTop :
    (o : Option ℕ) (ps : List MaskingPolicy) (p : MaskingPolicy)
    → class_policy o ps ≡ some p
    → IsTop (for_class o) ps p
unfolding class_policy
class_policy-IsTop none ps p h = cc
class_policy-IsTop (some k) ps p h = top-IsTop (targets_class k) ps p h
