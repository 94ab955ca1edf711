-- ===== src/Routers/Exceptions/Requests.antt =====
-- The two requests that change role exceptions (routers/exceptions.py).
use stardatadblabs.Base.{
  ℕ, ◌≡◌, ◌⊎◌, Text, contains, Bool, true, false, not, ◌&&◌, Option, none, some, List, [], ◌∷◌,
  ◌++◌, In, keep, ◌==◌, if◌then◌else◌,
}
use stardatadblabs.Catalog.Rows.{RoleMaskingException}
use stardatadblabs.Catalog.Session.{Result, ok, err, http, Service}
use stardatadblabs.Masking.Stardata.{Backend}
use stardatadblabs.Masking.Stardata.Revocation.{IsRevoked}
use stardatadblabs.Masking.Lockdown.{holds_exempt}
use stardatadblabs.Masking.Apply.{World, exempt_roles}
use stardatadblabs.Routers.Exceptions.{
  RoleExceptionCreate, all_sensitive_tables, classification_at, is_exception_of, exception_at,
  stardata_users_with_role, grant_users, relock_users, with_service,
}
use stardatadblabs.Routers.Exceptions.Grants.{is_base, is_view, Grants}
use stardatadblabs.Routers.Exceptions.Sessions.{HasOneException}

module _ (B : Backend) (can : B.State → Text → Text → Text → Bool) where
  -- What a creation comes to: the exception with its grants, or an error.
  abbrev pub IsCreation :
      Text
      → Option (List Text)
      → RoleExceptionCreate
      → World B
      → Result RoleMaskingException × World B
      → Type 0
  IsCreation database users body w (r, w') =
      ((e : RoleMaskingException) × (r ≡ ok e)
        × (w'.tables.exceptions ≡ w.tables.exceptions ++ (e ∷ []))
        × (HasOneException w.tables → HasOneException w'.tables)
        × ((t v : Text)
            → can w'.server database t v ≡ (
                if contains (stardata_users_with_role B users body.role_name) v
                  && is_base (all_sensitive_tables database w.tables) t
                then true
                else can w.server database t v)))
      ⊎ ((r ≡ err (http 404))
          × (classification_at body.classification_id w.tables ≡ none)
          × (w' ≡ w))
      ⊎ ((r ≡ err (http 409))
          × ((e : RoleMaskingException) × In e w.tables.exceptions
              × (is_exception_of body.role_name body.classification_id e ≡ true))
          × (w' ≡ w))

  -- What a deletion comes to: the exception is gone and its role's users are relocked, or an error.
  abbrev pub IsDeletion :
      Text → Option (List Text) → ℕ → World B → Result (Unit {0}) × World B → Type 0
  IsDeletion database users id w (r, w') =
      ((e : RoleMaskingException) × (r ≡ ok tt)
        × (exception_at id w.tables ≡ some e)
        × (w'.tables.exceptions ≡ keep (λ x. not (x.id == id)) w.tables.exceptions)
        × ((t v : Text)
            → is_view (all_sensitive_tables database w.tables) t ≡ false
            → IsRevoked B can database t v
                (contains (stardata_users_with_role B users e.role_name) v
                  && (not (holds_exempt (exempt_roles w'.tables) (B.role_names v))
                      && is_base (all_sensitive_tables database w.tables) t))
                w.server w'.server))
      ⊎ ((r ≡ err (http 404)) × (exception_at id w.tables ≡ none) × (w' ≡ w))

  -- The handlers from their session's outcome on.
  abbrev granted :
      Text
      → Option (List Text)
      → RoleExceptionCreate
      → World B
      → Result RoleMaskingException × Service
      → Result RoleMaskingException × World B
  granted database users body w q =
      let (r, s) = q in
      elim r [
        | err x ↦ (err x, with_service B s w.server)
        | ok ex ↦ (
          ok ex,
          with_service B s (
              grant_users B database (stardata_users_with_role B users body.role_name)
                (all_sensitive_tables database s.tables) w.server),
        )
      ]

  abbrev relocked :
      Text
      → Option (List Text)
      → World B
      → Result (Text × List Text) × Service
      → Result (Unit {0}) × World B
  relocked database users w q =
      let (r, s) = q in
      elim r [
        | err x ↦ (err x, with_service B s w.server)
        | ok (revoked_role, remaining) ↦ (
          ok tt,
          with_service B s (
              relock_users B database remaining (stardata_users_with_role B users revoked_role)
                (all_sensitive_tables database s.tables) w.server),
        )
      ]
