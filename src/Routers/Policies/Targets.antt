-- ===== src/Routers/Policies/Targets.antt =====
-- The target of a policy: one classification or one term (schemas.py, models.py and
-- routers/policies.py).
use stardatadblabs.Base.{
  ◌≡◌, refl, sym, ap, ◌∙◌, ◌⊎◌, inl, inr, Bool, true, false, not, Option, none, some, is_some, [],
  ◌∷◌, ◌++◌, In, In-append_one, arith,
}
use mathlib.Core.Path.{subst}
use stardatadblabs.Catalog.Rows.{MaskingAlgorithm, MaskingPolicy, Tables}
use stardatadblabs.Catalog.Cache
use stardatadblabs.Catalog.Session.{
  Result, ok, err, http, integrity, Service, ◌>>=◌, pure, query, or_raise, raise_if, write,
  db_session, cache_invalidate_prefix, policy_cache_prefix,
}
use stardatadblabs.Routers.Policies.{
  omitted, given, value, PolicyCreate, exactly_one_target, single_target, is_admitted, policy_named,
  algorithm_at, new_policy, add_policy, create_policy, post_policy,
}

-- What a creation comes to, from its guards on.
created :
    PolicyCreate
    → Option MaskingPolicy
    → Option MaskingAlgorithm
    → Bool
    → Service
    → Result MaskingPolicy × Service
created body (some p) algo single s = (err (http 409), s)
created body none none single s = (err (http 404), s)
created body none (some a) false s = (err integrity, s)
created body none (some a) true s =
    let p = new_policy s.tables.next_id body in
    (
      ok p,
      record {
        tables = add_policy p s.tables;
        cache = Cache.clear_prefix policy_cache_prefix s.cache;
      },
    )

guarded :
    (body : PolicyCreate) (existing : Option MaskingPolicy) (algo : Option MaskingAlgorithm)
    (single : Bool) (s : Service)
    → db_session
        (do
          _ ← raise_if (is_some existing) (http 409)
          found ← query (λ db. algo)
          _ ← or_raise found (http 404)
          id ← query (λ db. db.next_id)
          _ ← raise_if (not single) integrity
          _ ← write (add_policy (new_policy id body))
          _ ← cache_invalidate_prefix policy_cache_prefix
          pure (new_policy id body))
        s
      ≡ created body existing algo single s
unfolding created db_session cache_invalidate_prefix
guarded body (some p) algo single s = refl
guarded body none none single s = refl
guarded body none (some a) false s = refl
guarded body none (some a) true s = refl

abbrev outcome : PolicyCreate → Service → Result MaskingPolicy × Service
outcome body s =
    created body (policy_named body.name s.tables) (algorithm_at body.algorithm_id s.tables)
      (is_admitted (new_policy s.tables.next_id body) s.tables) s

after_algo :
    (body : PolicyCreate) (algo : Option MaskingAlgorithm) (s : Service)
    → db_session
        (do
          found ← query (λ db. algo)
          _ ← or_raise found (http 404)
          id ← query (λ db. db.next_id)
          admitted ← query (is_admitted (new_policy id body))
          _ ← raise_if (not admitted) integrity
          _ ← write (add_policy (new_policy id body))
          _ ← cache_invalidate_prefix policy_cache_prefix
          pure (new_policy id body))
        s
      ≡ created body none algo (is_admitted (new_policy s.tables.next_id body) s.tables) s
unfolding created db_session cache_invalidate_prefix
after_algo body none s = refl
after_algo body (some a) s =
    guarded body none (some a) (is_admitted (new_policy s.tables.next_id body) s.tables) s

after_existing :
    (body : PolicyCreate) (existing : Option MaskingPolicy) (s : Service)
    → db_session
        (do
          _ ← raise_if (is_some existing) (http 409)
          algo ← query (algorithm_at body.algorithm_id)
          _ ← or_raise algo (http 404)
          id ← query (λ db. db.next_id)
          admitted ← query (is_admitted (new_policy id body))
          _ ← raise_if (not admitted) integrity
          _ ← write (add_policy (new_policy id body))
          _ ← cache_invalidate_prefix policy_cache_prefix
          pure (new_policy id body))
        s
      ≡ created body existing
          (algorithm_at body.algorithm_id s.tables)
          (is_admitted (new_policy s.tables.next_id body) s.tables)
          s
unfolding created db_session cache_invalidate_prefix
after_existing body (some p) s = refl
after_existing body none s = after_algo body (algorithm_at body.algorithm_id s.tables) s

create_run : (body : PolicyCreate) (s : Service) → create_policy body s ≡ outcome body s
unfolding create_policy created db_session cache_invalidate_prefix
create_run body s = after_existing body (policy_named body.name s.tables) s

-- Every policy has exactly one target.
abbrev pub HasSingleTargets : Tables → Type 0
HasSingleTargets db = (p : MaskingPolicy) → In p db.policies → single_target p ≡ true

abbrev Kept : Service → Result MaskingPolicy × Service → Type 0
Kept s (r, s') =
    HasSingleTargets s'.tables
    × (((p : MaskingPolicy) × (r ≡ ok p)
          × (single_target p ≡ true)
          × (s'.tables.policies ≡ s.tables.policies ++ (p ∷ [])))
        ⊎ (s' ≡ s))

admitted_single :
    (p : MaskingPolicy) (db : Tables) → is_admitted p db ≡ true → single_target p ≡ true
admitted_single p db e = ground (arith, e)

created-Kept :
    (body : PolicyCreate) (existing : Option MaskingPolicy) (algo : Option MaskingAlgorithm)
    (single : Bool) (s : Service)
    → is_admitted (new_policy s.tables.next_id body) s.tables ≡ single
    → HasSingleTargets s.tables
    → Kept s (created body existing algo single s)
unfolding created
created-Kept body (some p) algo single s e one = (one, inr refl)
created-Kept body none none single s e one = (one, inr refl)
created-Kept body none (some a) false s e one = (one, inr refl)
created-Kept body none (some a) true s e one =
    let p = new_policy s.tables.next_id body in
    let single = admitted_single p s.tables e in
    (
      λ q m. elim (In-append_one q p s.tables.policies m) [
        | inl i ↦ one q i
        | inr same ↦ ap single_target same ∙ single
      ],
      inl (p, refl, single, refl),
    )

-- Creating a policy keeps the invariant that every policy has exactly one target: it adds one such
-- policy, or changes nothing.
pub create_policy-HasSingleTargets :
    (body : PolicyCreate) (s : Service)
    → HasSingleTargets s.tables
    → let (r, s') = create_policy body s in
      HasSingleTargets s'.tables
      × (((p : MaskingPolicy) × (r ≡ ok p)
            × (single_target p ≡ true)
            × (s'.tables.policies ≡ s.tables.policies ++ (p ∷ [])))
          ⊎ (s' ≡ s))
create_policy-HasSingleTargets body s one = subst (Kept s) (sym (create_run body s)) (
    created-Kept body (policy_named body.name s.tables) (algorithm_at body.algorithm_id s.tables)
      (is_admitted (new_policy s.tables.next_id body) s.tables) s refl one)

-- The endpoint, from the validator's answer on.
abbrev checked : PolicyCreate → Service → Bool → Result MaskingPolicy × Service
checked body s valid = (raise_if (not valid) (http 422) >>= λ x. create_policy body) s

valid_omitted :
    (body : PolicyCreate) → body.glossary_term_id ≡ omitted → exactly_one_target body ≡ true
unfolding exactly_one_target
valid_omitted body omit = rw (exactly_one_target, omit) refl

invalid_null :
    (body : PolicyCreate)
    → body.classification_id ≡ none
    → body.glossary_term_id ≡ given none
    → exactly_one_target body ≡ false
unfolding exactly_one_target
invalid_null body c null = rw (exactly_one_target, null, c) refl

not_admitted :
    (p : MaskingPolicy) (db : Tables)
    → p.classification_id ≡ none
    → p.glossary_term_id ≡ none
    → is_admitted p db ≡ false
not_admitted p db c g = rw (c, g) refl

-- A request without a classification that leaves the term out passes the validator and fails in the
-- database: with a new name and an algorithm that exists it comes back as an integrity error, not
-- as a validation error. With the same term given as null it is refused with 422.
pub post_policy-no_target :
    (body : PolicyCreate) (a : MaskingAlgorithm) (s : Service)
    → body.classification_id ≡ none
    → policy_named body.name s.tables ≡ none
    → algorithm_at body.algorithm_id s.tables ≡ some a
    → (body.glossary_term_id ≡ omitted → post_policy body s ≡ (err integrity, s))
      × (body.glossary_term_id ≡ given none → post_policy body s ≡ (err (http 422), s))
unfolding post_policy created
post_policy-no_target body a s c n e =
    let p = new_policy s.tables.next_id body in
    (
      λ omit.
          ap (checked body s) (valid_omitted body omit)
          ∙ create_run body s
          ∙ ap
              (λ o.
                created body o (algorithm_at body.algorithm_id s.tables) (is_admitted p s.tables) s)
              n
          ∙ ap (λ o. created body none o (is_admitted p s.tables) s) e
          ∙ ap (λ b. created body none (some a) b s) (not_admitted p s.tables c (ap value omit)),
      λ null. ap (checked body s) (invalid_null body c null),
    )
