-- ===== src/Routers/Policies.antt =====
-- Masking policies (routers/policies.py), with the request's validator (schemas.py) and the
-- constraints of the table (models.py) that a statement of the handlers can violate.
pub mod Targets
use stardatadblabs.Base.{
  ℕ, Text, text_eq, Bool, true, false, not, ◌&&◌, ◌||◌, Option, none, some, is_some, List, [], ◌∷◌,
  ◌++◌, ◌+◌, find, keep, update, any, ◌==◌, if◌then◌else◌,
}
use stardatadblabs.Base.Int.{ℤ}
use stardatadblabs.Catalog.Rows.{MaskingAlgorithm, MaskingPolicy, Tables, has_references}
use stardatadblabs.Catalog.Session.{
  Error, http, integrity, Action, ◌>>=◌, ◌>>◌, pure, query, or_raise, raise_if, write, db_session,
  cache_invalidate_prefix, policy_cache_prefix,
}

-- A field of a request that is left out has its default value, and its validators do not run.
pub data Field : Type 0 where
  omitted : Field
  given : Option ℕ → Field

abbrev pub value : Field → Option ℕ
value omitted = none
value (given v) = v

pub record PolicyCreate : Type 0 where
  pub name : Text
  pub description : Option Text
  pub classification_id : Option ℕ
  pub glossary_term_id : Field
  pub algorithm_id : ℕ
  pub priority : ℤ
  pub enabled : Bool

-- `a != b` on Booleans.
abbrev differs : Bool → Bool → Bool
differs true b = not b
differs false b = b

-- `exactly_one_target`: the validator of `glossary_term_id`.
unfoldable pub exactly_one_target : PolicyCreate → Bool
exactly_one_target body = elim body.glossary_term_id [
  | omitted ↦ true
  | given v ↦ differs (is_some body.classification_id) (is_some v)
]

-- `ck_policy_single_target`
abbrev pub single_target : MaskingPolicy → Bool
single_target p = differs (is_some p.classification_id) (is_some p.glossary_term_id)

-- The constraints that a new policy must meet: the check, and the foreign keys of its target.
abbrev pub is_admitted : MaskingPolicy → Tables → Bool
is_admitted p db = single_target p && has_references p.classification_id p.glossary_term_id db

abbrev pub policy_named : Text → Tables → Option MaskingPolicy
policy_named name db = find (λ p. text_eq p.name name) db.policies

abbrev pub algorithm_at : ℕ → Tables → Option MaskingAlgorithm
algorithm_at id db = find (λ a. a.id == id) db.algorithms

abbrev pub new_policy : ℕ → PolicyCreate → MaskingPolicy
new_policy id body = record {
  id = id;
  name = body.name;
  description = body.description;
  classification_id = body.classification_id;
  glossary_term_id = value body.glossary_term_id;
  algorithm_id = body.algorithm_id;
  priority = body.priority;
  enabled = body.enabled;
}

abbrev pub add_policy : MaskingPolicy → Tables → Tables
add_policy p db = record db { policies = db.policies ++ (p ∷ []); next_id = db.next_id + 1 }

-- The handler, once the request is valid.
unfoldable pub create_policy : PolicyCreate → Action MaskingPolicy
unfolding db_session has_references
create_policy body = db_session (do
  existing ← query (policy_named body.name)
  _ ← raise_if (is_some existing) (http 409)
  algo ← query (algorithm_at body.algorithm_id)
  _ ← or_raise algo (http 404)
  id ← query (λ db. db.next_id)
  admitted ← query (is_admitted (new_policy id body))
  _ ← raise_if (not admitted) integrity
  _ ← write (add_policy (new_policy id body))
  _ ← cache_invalidate_prefix policy_cache_prefix
  pure (new_policy id body))

-- The endpoint: a request that the validator refuses gets 422.
unfoldable pub post_policy : PolicyCreate → Action MaskingPolicy
unfolding create_policy exactly_one_target
post_policy body = do _ ← raise_if (not (exactly_one_target body)) (http 422); create_policy body

pub record PolicyUpdate : Type 0 where
  pub description : Option Text
  pub algorithm_id : Option ℕ
  pub priority : Option ℤ
  pub enabled : Option Bool

abbrev pub or_old {ℓ} : {A : Type ℓ} → Option A → A → A
or_old none a = a
or_old (some b) a = b

-- `exclude_none=True`
abbrev pub or_kept {ℓ} : {A : Type ℓ} → Option A → Option A → Option A
or_kept none a = a
or_kept (some b) a = some b

abbrev pub updated : PolicyUpdate → MaskingPolicy → MaskingPolicy
updated body p = record p {
  description = or_kept body.description p.description;
  algorithm_id = or_old body.algorithm_id p.algorithm_id;
  priority = or_old body.priority p.priority;
  enabled = or_old body.enabled p.enabled;
}

abbrev pub save_policy : MaskingPolicy → Tables → Tables
save_policy p db = record db { policies = update (λ x. x.id == p.id) (λ x. p) db.policies }

-- The new values reach the database at the commit, after the cache has been invalidated: that is
-- where an algorithm that does not exist is refused.
unfoldable pub update_policy : Text → PolicyUpdate → Action MaskingPolicy
unfolding db_session
update_policy name body = db_session (do
  found ← query (policy_named name)
  p ← or_raise found (http 404)
  _ ← cache_invalidate_prefix policy_cache_prefix
  algo ← query (algorithm_at (updated body p).algorithm_id)
  _ ← or_raise algo integrity
  _ ← write (save_policy (updated body p))
  pure (updated body p))

abbrev pub remove_policy : MaskingPolicy → Tables → Tables
remove_policy p db = record db { policies = keep (λ x. not (x.id == p.id)) db.policies }

unfoldable pub delete_policy : Text → Action (Unit {0})
unfolding db_session
delete_policy name = db_session (do
  found ← query (policy_named name)
  p ← or_raise found (http 404)
  _ ← write (remove_policy p)
  cache_invalidate_prefix policy_cache_prefix)
