-- ===== src/Routers/Exceptions.antt =====
-- Role exceptions and what they grant and revoke on the server (routers/exceptions.py). The setting
-- `stardata_demo_database` and the user list of the RBAC control plane are arguments; the list is
-- none where it cannot be fetched.
pub mod Grants
pub mod Sessions
pub mod Requests
use stardatadblabs.Base.{
  ℕ, Text, text_eq, contains, Bool, true, false, not, ◌&&◌, Option, none, some, is_some, List, [],
  ◌∷◌, ◌++◌, ◌+◌, find, keep, map, any, ◌==◌, if◌then◌else◌,
}
use stardatadblabs.Catalog.Rows.{
  DataClassification, RoleMaskingException, StardataViewManifest, Tables,
}
use stardatadblabs.Catalog.Session.{
  Error, Result, ok, err, http, Service, Action, ◌>>=◌, pure, query, or_raise, raise_if, write,
  db_session, cache_invalidate_prefix, policy_cache_prefix,
}
use stardatadblabs.Masking.Stardata.{
  Backend, grant_select, attempt, grant_view_to_user, revoke_base_table_from_user,
}
use stardatadblabs.Masking.Lockdown.{holds_exempt}
use stardatadblabs.Masking.Apply.{World, exempt_roles}

pub record RoleExceptionCreate : Type 0 where
  pub role_name : Text
  pub classification_id : ℕ
  pub granted_by : Text

-- `_all_sensitive_tables`: each masked table with its view.
unfoldable pub all_sensitive_tables : Text → Tables → List (Text × Text)
all_sensitive_tables database db =
    map (λ m. (m.base_table, m.view_name))
      (keep (λ m. text_eq m.stardata_database database) db.manifests)

abbrev pub is_exception_of : Text → ℕ → RoleMaskingException → Bool
is_exception_of role k e = text_eq e.role_name role && e.classification_id == k

abbrev pub exception_of : Text → ℕ → Tables → Option RoleMaskingException
exception_of role k db = find (is_exception_of role k) db.exceptions

abbrev pub classification_at : ℕ → Tables → Option DataClassification
classification_at k db = find (λ c. c.id == k) db.classifications

abbrev pub new_exception : ℕ → RoleExceptionCreate → RoleMaskingException
new_exception id body = record {
  id = id;
  role_name = body.role_name;
  classification_id = body.classification_id;
  granted_by = body.granted_by;
}

abbrev pub add_exception : RoleMaskingException → Tables → Tables
add_exception e db = record db { exceptions = db.exceptions ++ (e ∷ []); next_id = db.next_id + 1 }

-- The session of `create_exception`.
unfoldable pub create_row : RoleExceptionCreate → Action RoleMaskingException
unfolding db_session
create_row body = db_session (do
  cls ← query (classification_at body.classification_id)
  _ ← or_raise cls (http 404)
  existing ← query (exception_of body.role_name body.classification_id)
  _ ← raise_if (is_some existing) (http 409)
  id ← query (λ db. db.next_id)
  _ ← write (add_exception (new_exception id body))
  _ ← cache_invalidate_prefix policy_cache_prefix
  pure (new_exception id body))

abbrev pub exception_at : ℕ → Tables → Option RoleMaskingException
exception_at id db = find (λ e. e.id == id) db.exceptions

abbrev pub remove_exception : ℕ → Tables → Tables
remove_exception id db = record db { exceptions = keep (λ e. not (e.id == id)) db.exceptions }

-- The session of `delete_exception`: the role that loses an exception, and the roles that still
-- have one.
unfoldable pub delete_row : ℕ → Action (Text × List Text)
unfolding db_session
delete_row id = db_session (do
  found ← query (exception_at id)
  ex ← or_raise found (http 404)
  _ ← write (remove_exception id)
  _ ← cache_invalidate_prefix policy_cache_prefix
  remaining ← query exempt_roles
  pure (ex.role_name, remaining))

module _ (B : Backend) where
  -- `_stardata_users_with_role`
  unfoldable pub stardata_users_with_role : Option (List Text) → Text → List Text
  stardata_users_with_role none role = []
  stardata_users_with_role (some users) role = keep (λ u. contains (B.role_names u) role) users

  -- `_grant_base_tables_to_user`, on the tables that it loops over.
  unfoldable pub grant_base_tables_to_user : Text → Text → List (Text × Text) → B.State → B.State
  unfolding attempt
  grant_base_tables_to_user database user [] s = s
  grant_base_tables_to_user database user ((base_table, view_name) ∷ tables) s =
      grant_base_tables_to_user database user tables
        (attempt B (grant_select database base_table user) s)

  -- The loop of `_relock_user_for_database`.
  unfoldable pub relock_tables : Text → Text → List (Text × Text) → B.State → B.State
  relock_tables database user [] s = s
  relock_tables database user ((base_table, view_name) ∷ tables) s =
      relock_tables database user tables (
        grant_view_to_user B database view_name user
          (revoke_base_table_from_user B database base_table user s))

  -- `_relock_user_for_database`
  unfoldable pub relock_user_for_database :
      Text → Text → List Text → List (Text × Text) → B.State → B.State
  unfolding relock_tables
  relock_user_for_database database user remaining tables s =
      if holds_exempt remaining (B.role_names user) then s else relock_tables database user tables s

  -- The two loops over the affected users.
  unfoldable pub grant_users : Text → List Text → List (Text × Text) → B.State → B.State
  unfolding grant_base_tables_to_user
  grant_users database [] tables s = s
  grant_users database (u ∷ us) tables s =
      grant_users database us tables (grant_base_tables_to_user database u tables s)

  unfoldable pub relock_users :
      Text → List Text → List Text → List (Text × Text) → B.State → B.State
  unfolding relock_user_for_database
  relock_users database remaining [] tables s = s
  relock_users database remaining (u ∷ us) tables s =
      relock_users database remaining us tables
        (relock_user_for_database database u remaining tables s)

  abbrev pub service_of : World B → Service
  service_of w = record { tables = w.tables; cache = w.cache }

  abbrev pub with_service : Service → B.State → World B
  with_service s server = record { tables = s.tables; cache = s.cache; server = server }

  unfoldable pub create_exception :
      Text
      → Option (List Text)
      → RoleExceptionCreate
      → World B
      → Result RoleMaskingException × World B
  unfolding create_row grant_users all_sensitive_tables stardata_users_with_role
  create_exception database users body w =
      let (r, s) = create_row body (service_of w) in
      elim r [
        | err x ↦ (err x, with_service s w.server)
        | ok ex ↦ (
          ok ex,
          with_service s (
              grant_users database (stardata_users_with_role users body.role_name)
                (all_sensitive_tables database s.tables) w.server),
        )
      ]

  unfoldable pub delete_exception :
      Text → Option (List Text) → ℕ → World B → Result (Unit {0}) × World B
  unfolding delete_row relock_users all_sensitive_tables stardata_users_with_role
  delete_exception database users id w =
      let (r, s) = delete_row id (service_of w) in
      elim r [
        | err x ↦ (err x, with_service s w.server)
        | ok (revoked_role, remaining) ↦ (
          ok tt,
          with_service s (
              relock_users database remaining (stardata_users_with_role users revoked_role)
                (all_sensitive_tables database s.tables) w.server),
        )
      ]
