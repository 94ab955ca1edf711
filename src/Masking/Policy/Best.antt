-- ===== src/Masking/Policy/Best.antt =====
-- The policy that masking.py resolves is the best of those that apply.
use stardatadblabs.Base.{
  ℕ, ◌≡◌, refl, ◌∙◌, ◌↔◌, ◌⊎◌, inl, inr, Bool, true, false, ◌||◌, Option, none, some, List, [], ◌∷◌,
  In, any, is_some, arith, Bool-cases, Option-cases,
}
use stardatadblabs.Base.Int.{◌≤ℤ◌}
use stardatadblabs.Catalog.Rows.{MaskingPolicy, ColumnTag, Tables}
use stardatadblabs.Masking.Policy.{
  key_gt, term_policy, class_policy, best_policy, policy_for_column,
}
use stardatadblabs.Masking.Policy.Top.{
  ≤ℤ-trans, none_fits, term_policy-none, term_policy-IsTop, class_policy-none, class_policy-IsTop,
  for_term, for_class, applies,
}

for_term-some :
    (o : Option ℕ) (p : MaskingPolicy) → for_term o p ≡ true → is_some p.glossary_term_id ≡ true
for_term-some none p h = cc
for_term-some (some t) p h = ground arith

any_or :
    (f g : MaskingPolicy → Bool) (ps : List MaskingPolicy)
    → any (λ p. f p || g p) ps ≡ (any f ps || any g ps)
any_or f g [] = refl
any_or f g (p ∷ ps) = ground (arith, any_or f g ps)

best_policy-none : (t c : Option MaskingPolicy) → best_policy t c ≡ none → (t ≡ none) × (c ≡ none)
unfolding best_policy
best_policy-none none c h = (refl, h)
best_policy-none (some t) none h = cc
best_policy-none (some t) (some c) h = ground arith

-- The two ways in which `max` ends, where `t` is the term's policy and `c` the classification's.
best_policy-some :
    (t c : Option MaskingPolicy) (p : MaskingPolicy)
    → best_policy t c ≡ some p
    → ((t' : MaskingPolicy) → t ≡ some t' → is_some t'.glossary_term_id ≡ true)
    → ((t ≡ some p) × ((c' : MaskingPolicy) → c ≡ some c' → c'.priority ≤ℤ p.priority))
      ⊎ ((c ≡ some p)
          × ((t' : MaskingPolicy)
              → t ≡ some t'
              → (t'.priority ≤ℤ p.priority) × ¬ (p.priority ≤ℤ t'.priority)))
unfolding best_policy
best_policy-some none c p h g = inr (h, λ t' e. cc)
best_policy-some (some t) none p h g = inl (h, λ c' e. cc)
best_policy-some (some t) (some c) p h g = elim (Bool-cases (key_gt c t)) [
  | inl gt ↦ inr (rw gt at h, λ t' e. ground (arith, rw gt at h, g t refl))
  | inr kept ↦ inl (rw kept at h, λ c' e. ground (arith, rw kept at h))
]

term_policy-above :
    (o : Option ℕ) (ps : List MaskingPolicy) (q : MaskingPolicy)
    → In q ps
    → for_term o q ≡ true
    → (t : MaskingPolicy) × (term_policy o ps ≡ some t) × (q.priority ≤ℤ t.priority)
term_policy-above o ps q m f = elim (Option-cases (term_policy o ps)) [
  | inl e ↦ absurd (none_fits (for_term o) ps q (term_policy-none o ps e) m f)
  | inr (t, e) ↦ (t, e, (term_policy-IsTop o ps t e).2 q m f)
]

class_policy-above :
    (o : Option ℕ) (ps : List MaskingPolicy) (q : MaskingPolicy)
    → In q ps
    → for_class o q ≡ true
    → (c : MaskingPolicy) × (class_policy o ps ≡ some c) × (q.priority ≤ℤ c.priority)
class_policy-above o ps q m f = elim (Option-cases (class_policy o ps)) [
  | inl e ↦ absurd (none_fits (for_class o) ps q (class_policy-none o ps e) m f)
  | inr (c, e) ↦ (c, e, (class_policy-IsTop o ps c e).2 q m f)
]

-- Where the resolved policy stands among those that apply.
abbrev pub IsBest : ColumnTag → List MaskingPolicy → MaskingPolicy → Type 0
IsBest tag ps p =
    In p ps
    × (applies tag p ≡ true)
    × ((q : MaskingPolicy)
        → In q ps
        → applies tag q ≡ true
        → (q.priority ≤ℤ p.priority)
          × (for_term tag.glossary_term_id q ≡ true
              → p.priority ≤ℤ q.priority
              → is_some p.glossary_term_id ≡ true))

term_policy-IsBest :
    (tag : ColumnTag) (ps : List MaskingPolicy) (p : MaskingPolicy)
    → term_policy tag.glossary_term_id ps ≡ some p
    → ((c : MaskingPolicy)
        → class_policy tag.classification_id ps ≡ some c
        → c.priority ≤ℤ p.priority)
    → IsBest tag ps p
term_policy-IsBest tag ps p e below =
    let (m, fit, best) = term_policy-IsTop tag.glossary_term_id ps p e in
    (
      m,
      rw fit,
      λ q i a. (
        elim (Bool-cases (for_term tag.glossary_term_id q)) [
          | inl f ↦ best q i f
          | inr f ↦
              let (c, found, le) = class_policy-above tag.classification_id ps q i (rw f at a) in
              ≤ℤ-trans q.priority c.priority p.priority le (below c found)
        ],
        λ _ _. for_term-some tag.glossary_term_id p fit,
      ),
    )

class_policy-IsBest :
    (tag : ColumnTag) (ps : List MaskingPolicy) (p : MaskingPolicy)
    → class_policy tag.classification_id ps ≡ some p
    → ((t : MaskingPolicy)
        → term_policy tag.glossary_term_id ps ≡ some t
        → (t.priority ≤ℤ p.priority) × ¬ (p.priority ≤ℤ t.priority))
    → IsBest tag ps p
class_policy-IsBest tag ps p e below =
    let (m, fit, best) = class_policy-IsTop tag.classification_id ps p e in
    (
      m,
      ground arith,
      λ q i a. elim (Bool-cases (for_term tag.glossary_term_id q)) [
        | inl f ↦
            let (t, found, le) = term_policy-above tag.glossary_term_id ps q i f in
            (
              ≤ℤ-trans q.priority t.priority p.priority le (below t found).0,
              λ _ ge. absurd ((below t found).1 (≤ℤ-trans p.priority q.priority t.priority ge le)),
            )
        | inr f ↦ (best q i (rw f at a), λ f' _. cc)
      ],
    )

policy_for_column-some :
    (tag : ColumnTag) (db : Tables) (p : MaskingPolicy)
    → policy_for_column tag db ≡ some p
    → IsBest tag db.policies p
unfolding policy_for_column
policy_for_column-some tag db p h =
    elim (best_policy-some (term_policy tag.glossary_term_id db.policies)
      (class_policy tag.classification_id db.policies) p h
      (λ t e.
        for_term-some tag.glossary_term_id t
          (term_policy-IsTop tag.glossary_term_id db.policies t e).1)) [
            | inl (e, below) ↦ term_policy-IsBest tag db.policies p e below
            | inr (e, below) ↦ class_policy-IsBest tag db.policies p e below
          ]

policy_for_column-none :
    (tag : ColumnTag) (db : Tables)
    → policy_for_column tag db ≡ none
    → any (applies tag) db.policies ≡ false
unfolding policy_for_column
policy_for_column-none tag db h =
    let (te, ce) =
      best_policy-none (term_policy tag.glossary_term_id db.policies)
        (class_policy tag.classification_id db.policies) h in
    any_or (for_term tag.glossary_term_id) (for_class tag.classification_id) db.policies
    ∙ rw (
      term_policy-none tag.glossary_term_id db.policies te,
      class_policy-none tag.classification_id db.policies ce,
    )

none-applies :
    (tag : ColumnTag) (db : Tables)
    → any (applies tag) db.policies ≡ false
    → policy_for_column tag db ≡ none
none-applies tag db h = elim (Option-cases (policy_for_column tag db)) [
  | inl e ↦ e
  | inr (p, e) ↦
      let (m, a, _) = policy_for_column-some tag db p e in
      absurd (none_fits (applies tag) db.policies p h m a)
]

-- The policy that is resolved for a tag is an enabled one for its term or its classification. No
-- enabled policy for either has a higher priority, and if one for the term has the same priority,
-- the resolved one is a term's. There is none exactly if no enabled policy applies.
pub policy_for_column-IsBest :
    (tag : ColumnTag) (db : Tables)
    → ((p : MaskingPolicy) → policy_for_column tag db ≡ some p → IsBest tag db.policies p)
      × ((policy_for_column tag db ≡ none) ↔ (any (applies tag) db.policies ≡ false))
policy_for_column-IsBest tag db =
    (policy_for_column-some tag db, (policy_for_column-none tag db, none-applies tag db))
