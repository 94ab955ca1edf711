-- ===== src/Masking/Lockdown/Access.antt =====
-- Who can still read the base table after the lockdown of masking.py.
use stardatadblabs.Base.{
  ◌≡◌, refl, sym, ap, ◌∙◌, ◌≢◌, Text, text_eq, text_eq_iff, text_eq_refl, contains, Bool, false,
  not, ◌&&◌, some, List, [], ◌∷◌, ◌++◌, map, arith, if◌then◌else◌, Option-cases, inl, inr, true,
}
use mathlib.Core.Path.{subst}
use stardatadblabs.Masking.Stardata.{
  Backend, found_users, IsLawful, grant_select, attempt, grant_view_to_user,
  revoke_base_table_from_user,
}
use stardatadblabs.Masking.Stardata.Revocation.{
  here, grant-Sent, IsRevoked, same-IsRevoked, IsRevoked-trans, IsRevoked-cast, revoke-IsRevoked,
}
use stardatadblabs.Masking.Lockdown.{
  raw_user, holds_exempt, lock_user, lock_users, lock_listed, enforce_base_table_lockdown,
}

pub append-ne : (t s : Text) → s ≢ [] → text_eq (t ++ s) t ≡ false
unfolding text_eq
append-ne [] [] ne = absurd (ne refl)
append-ne [] (c ∷ s) ne = refl
append-ne (d ∷ t) s ne = ground (arith, append-ne t s ne)

-- The user is one of those listed, and none of the user's roles is exempt.
abbrev pub is_locked : (B : Backend) → List Text → List Text → Text → Bool
is_locked B exempt_roles users v =
    contains users v && not (holds_exempt exempt_roles (B.role_names v))

module _ (B : Backend) {can : B.State → Text → Text → Text → Bool} (L : IsLawful B can) where
  -- A grant on another object leaves the access to this one alone.
  pub grant_other :
      (d o u o' v : Text) (s : B.State)
      → text_eq o o' ≡ false
      → can (grant_view_to_user B d o u s) d o' v ≡ can s d o' v
  unfolding grant_view_to_user
  grant_other d o u o' v s ne = elim (Option-cases (B.execute s (grant_select d o u))) [
    | inl e ↦ rw (e, attempt)
    | inr (s', e) ↦ rw (e, attempt) (L.grant_gives s s' d o u d o' v e ∙ ground arith)
  ]

  lock_user-IsRevoked :
      (suffix d table : Text) (exempt_roles : List Text) (u v : Text) (s : B.State)
      → suffix ≢ []
      → IsRevoked B can d table v
          (text_eq u v && not (holds_exempt exempt_roles (B.role_names v)))
          s
          (lock_user B suffix d table exempt_roles u s)
  unfolding lock_user
  lock_user-IsRevoked suffix d table exempt_roles u v s ne =
      by_roles (holds_exempt exempt_roles (B.role_names u)) refl
    where
      locked : B.State
      locked = revoke_base_table_from_user B d table u s

      by_roles :
          (b : Bool)
          → holds_exempt exempt_roles (B.role_names u) ≡ b
          → IsRevoked B can d table v
              (text_eq u v && not (holds_exempt exempt_roles (B.role_names v)))
              s
              (if b then s else grant_view_to_user B d (table ++ suffix) u locked)
      by_roles true e = same-IsRevoked B can d table v _ s (ground (arith, text_eq_iff u v, e))
      by_roles false e =
          IsRevoked-cast B can d table v s _
            (ground (arith, text_eq_iff u v, text_eq_refl table, e))
            (IsRevoked-trans B can d table v (text_eq table table && text_eq u v) false s locked _
              (revoke-IsRevoked B L d table u table v s)
              (
                grant-Sent B d (table ++ suffix) u locked,
                grant_other d (table ++ suffix) u table v locked (append-ne table suffix ne),
              ))

  lock_users-IsRevoked :
      (suffix d table : Text) (exempt_roles us : List Text) (v : Text) (s : B.State)
      → suffix ≢ []
      → IsRevoked B can d table v
          (is_locked B exempt_roles us v)
          s
          (lock_users B suffix d table exempt_roles us s)
  unfolding lock_users
  lock_users-IsRevoked suffix d table exempt_roles [] v s ne = (here, refl)
  lock_users-IsRevoked suffix d table exempt_roles (u ∷ us) v s ne =
      IsRevoked-cast B can d table v s _ (ground arith) (
        IsRevoked-trans B can d table v
          (text_eq u v && not (holds_exempt exempt_roles (B.role_names v)))
          (is_locked B exempt_roles us v) s _ _
          (lock_user-IsRevoked suffix d table exempt_roles u v s ne)
          (lock_users-IsRevoked suffix d table exempt_roles us v
            (lock_user B suffix d table exempt_roles u s) ne))

  -- After the lockdown of a table no user that the server lists holds a grant on the base table,
  -- unless one of the user's roles is exempt or the server refused the revocation. The access of
  -- every other user is as it was.
  pub enforce_base_table_lockdown-IsRevoked :
      (suffix d table : Text) (exempt_roles : List Text) (s s' : B.State) (rows : List Text)
      (v : Text)
      → B.grantees s ≡ found_users rows
      → suffix ≢ []
      → enforce_base_table_lockdown B suffix d table exempt_roles s ≡ some s'
      → IsRevoked B can d table v (is_locked B exempt_roles (map raw_user rows) v) s s'
  unfolding enforce_base_table_lockdown
  enforce_base_table_lockdown-IsRevoked suffix d table exempt_roles s s' rows v e ne h =
      let locked : lock_users B suffix d table exempt_roles (map raw_user rows) s ≡ s' =
        cc (ap (lock_listed B suffix d table exempt_roles s) (sym e) ∙ h) in
      subst (IsRevoked B can d table v (is_locked B exempt_roles (map raw_user rows) v) s) locked
        (lock_users-IsRevoked suffix d table exempt_roles (map raw_user rows) v s ne)
