-- ===== src/Masking/Policy.antt =====
-- Which masking algorithm applies to a tagged column (masking.py, `_resolve_policy_for_column`).
pub mod Top
pub mod Best
use stardatadblabs.Base.{
  ℕ, Bool, true, false, ◌&&◌, Option, none, some, List, [], ◌∷◌, ◌++◌, find, ◌==◌, holds_id,
  is_some, if◌then◌else◌,
}
use stardatadblabs.Base.Int.{ltb_ℤ}
use stardatadblabs.Catalog.Rows.{MaskingPolicy, MaskingAlgorithm, ColumnTag, Tables}

-- Of the rows before and the rows that remain, one of the highest priority: the earlier one where
-- two are equal.
unfoldable pub higher : MaskingPolicy → Option MaskingPolicy → Option MaskingPolicy
higher p none = some p
higher p (some q) = if ltb_ℤ p.priority q.priority then some q else some p

-- `.where(fits).order_by(MaskingPolicy.priority.desc()).limit(1)`. PostgreSQL may return any of
-- several rows of one priority; here it is the first.
unfoldable pub top : (MaskingPolicy → Bool) → List MaskingPolicy → Option MaskingPolicy
unfolding higher
top fits [] = none
top fits (p ∷ ps) = let rest = top fits ps in if fits p then higher p rest else rest

abbrev pub targets_term : ℕ → MaskingPolicy → Bool
targets_term t p = holds_id p.glossary_term_id t && p.enabled

abbrev pub targets_class : ℕ → MaskingPolicy → Bool
targets_class k p = holds_id p.classification_id k && p.enabled

-- The two queries; none where the tag has no such id.
unfoldable pub term_policy : Option ℕ → List MaskingPolicy → Option MaskingPolicy
term_policy none ps = none
term_policy (some t) ps = top (targets_term t) ps

unfoldable pub class_policy : Option ℕ → List MaskingPolicy → Option MaskingPolicy
class_policy none ps = none
class_policy (some k) ps = top (targets_class k) ps

-- The key of `max`: `(p.priority, 1 if p.glossary_term_id is not None else 0)`. The second of two
-- policies is taken only if its key is greater.
abbrev pub key_gt : MaskingPolicy → MaskingPolicy → Bool
key_gt p q =
    if ltb_ℤ q.priority p.priority
    then true
    else if ltb_ℤ p.priority q.priority
    then false
    else if is_some p.glossary_term_id
    then (if is_some q.glossary_term_id then false else true)
    else false

unfoldable pub best_policy : Option MaskingPolicy → Option MaskingPolicy → Option MaskingPolicy
best_policy none c = c
best_policy (some t) none = some t
best_policy (some t) (some c) = if key_gt c t then some c else some t

unfoldable pub policy_for_column : ColumnTag → Tables → Option MaskingPolicy
unfolding best_policy term_policy class_policy
policy_for_column tag db =
    best_policy (term_policy tag.glossary_term_id db.policies)
      (class_policy tag.classification_id db.policies)

unfoldable pub resolve_policy_for_column : ColumnTag → Tables → Option MaskingAlgorithm
unfolding policy_for_column
resolve_policy_for_column tag db = elim (policy_for_column tag db) [
  | none ↦ none
  | some best ↦ find (λ a. a.id == best.algorithm_id) db.algorithms
]
