-- ===== src/Routers/Exceptions/Sessions.antt =====
-- What the sessions of the two requests come to (routers/exceptions.py).
use stardatadblabs.Base.{
  ℕ, ◌≡◌, refl, sym, ap, ◌∙◌, inl, inr, Text, text_eq_iff, Option, none, some, is_some, List, In,
  In-append_one, In-any, find-none, ==_iff, arith,
}
use stardatadblabs.Catalog.Rows.{DataClassification, RoleMaskingException, Tables}
use stardatadblabs.Catalog.Cache
use stardatadblabs.Catalog.Session.{
  Result, ok, err, http, Service, ◌>>=◌, pure, query, or_raise, raise_if, write, db_session,
  cache_invalidate_prefix, policy_cache_prefix,
}
use stardatadblabs.Masking.Apply.{exempt_roles}
use stardatadblabs.Routers.Exceptions.{
  RoleExceptionCreate, classification_at, exception_of, is_exception_of, exception_at,
  new_exception, add_exception, remove_exception, create_row, delete_row,
}

abbrev pub invalidated : Tables → Service → Service
invalidated db s = record { tables = db; cache = Cache.clear_prefix policy_cache_prefix s.cache }

-- What the session of a creation comes to, from its two queries on.
unfoldable pub created :
    RoleExceptionCreate
    → Option DataClassification
    → Option RoleMaskingException
    → Service
    → Result RoleMaskingException × Service
created body none existing s = (err (http 404), s)
created body (some c) (some e) s = (err (http 409), s)
created body (some c) none s =
    let e = new_exception s.tables.next_id body in (ok e, invalidated (add_exception e s.tables) s)

pub create_found :
    (body : RoleExceptionCreate) (cls : Option DataClassification)
    (existing : Option RoleMaskingException) (s : Service)
    → db_session
        (do
          _ ← or_raise cls (http 404)
          found ← query (λ db. existing)
          _ ← raise_if (is_some found) (http 409)
          id ← query (λ db. db.next_id)
          _ ← write (add_exception (new_exception id body))
          _ ← cache_invalidate_prefix policy_cache_prefix
          pure (new_exception id body))
        s
      ≡ created body cls existing s
unfolding created db_session cache_invalidate_prefix
create_found body none existing s = refl
create_found body (some c) (some e) s = refl
create_found body (some c) none s = refl

pub class_first :
    (body : RoleExceptionCreate) (cls : Option DataClassification) (s : Service)
    → db_session
        (do
          _ ← or_raise cls (http 404)
          existing ← query (exception_of body.role_name body.classification_id)
          _ ← raise_if (is_some existing) (http 409)
          id ← query (λ db. db.next_id)
          _ ← write (add_exception (new_exception id body))
          _ ← cache_invalidate_prefix policy_cache_prefix
          pure (new_exception id body))
        s
      ≡ created body cls (exception_of body.role_name body.classification_id s.tables) s
unfolding created db_session cache_invalidate_prefix
class_first body none s = refl
class_first body (some c) s =
    create_found body (some c) (exception_of body.role_name body.classification_id s.tables) s

pub create_row-created :
    (body : RoleExceptionCreate) (s : Service)
    → create_row body s
      ≡ created body
          (classification_at body.classification_id s.tables)
          (exception_of body.role_name body.classification_id s.tables)
          s
unfolding create_row db_session cache_invalidate_prefix
create_row-created body s = class_first body (classification_at body.classification_id s.tables) s

unfoldable pub deleted :
    ℕ → Option RoleMaskingException → Service → Result (Text × List Text) × Service
deleted id none s = (err (http 404), s)
deleted id (some e) s =
    let db = remove_exception id s.tables in (ok (e.role_name, exempt_roles db), invalidated db s)

pub delete_found :
    (id : ℕ) (o : Option RoleMaskingException) (s : Service)
    → db_session
        (do
          ex ← or_raise o (http 404)
          _ ← write (remove_exception id)
          _ ← cache_invalidate_prefix policy_cache_prefix
          remaining ← query exempt_roles
          pure (ex.role_name, remaining))
        s
      ≡ deleted id o s
unfolding deleted db_session cache_invalidate_prefix
delete_found id none s = refl
delete_found id (some e) s = refl

pub delete_row-deleted :
    (id : ℕ) (s : Service) → delete_row id s ≡ deleted id (exception_at id s.tables) s
unfolding delete_row db_session cache_invalidate_prefix
delete_row-deleted id s = delete_found id (exception_at id s.tables) s

-- A role has at most one exception for a classification.
abbrev pub HasOneException : Tables → Type 0
HasOneException db =
    (a b : RoleMaskingException)
    → In a db.exceptions
    → In b db.exceptions
    → a.role_name ≡ b.role_name
    → a.classification_id ≡ b.classification_id
    → a ≡ b

pub no_other :
    (role : Text) (k : ℕ) (db : Tables) (a : RoleMaskingException)
    → exception_of role k db ≡ none
    → In a db.exceptions
    → a.role_name ≡ role
    → a.classification_id ≡ k
    → ⊥
no_other role k db a free i p q =
    let none_there = find-none (is_exception_of role k) db.exceptions free in
    let there =
      In-any (is_exception_of role k) a db.exceptions i
        (ground (arith, text_eq_iff a.role_name role, ==_iff a.classification_id k)) in
    cc

pub add-HasOneException :
    (body : RoleExceptionCreate) (db : Tables)
    → exception_of body.role_name body.classification_id db ≡ none
    → HasOneException db
    → HasOneException (add_exception (new_exception db.next_id body) db)
add-HasOneException body db free one a b m n p q =
    let e = new_exception db.next_id body in
    elim (In-append_one a e db.exceptions m) [
      | inl i ↦ elim (In-append_one b e db.exceptions n) [
        | inl j ↦ one a b i j p q
        | inr s ↦ absurd (
            no_other body.role_name body.classification_id db a free i (p ∙ ap (λ x. x.role_name) s)
              (q ∙ ap (λ x. x.classification_id) s))
      ]
      | inr r ↦ elim (In-append_one b e db.exceptions n) [
        | inl j ↦ absurd (
            no_other body.role_name body.classification_id db b free j
              (sym p ∙ ap (λ x. x.role_name) r) (sym q ∙ ap (λ x. x.classification_id) r))
        | inr s ↦ r ∙ sym s
      ]
    ]
