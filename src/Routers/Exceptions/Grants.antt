-- ===== src/Routers/Exceptions/Grants.antt =====
-- Who can read the base tables after the grants and revocations of routers/exceptions.py.
use stardatadblabs.Base.{
  ◌≡◌, refl, ◌∙◌, Text, text_eq, text_eq_iff, text_eq_refl, contains, Bool, true, false, not, ◌&&◌,
  some, List, [], ◌∷◌, any, arith, if◌then◌else◌,
}
use stardatadblabs.Masking.Stardata.{
  Backend, IsLawful, grant_select, attempt, grant_view_to_user, revoke_base_table_from_user,
}
use stardatadblabs.Masking.Stardata.Revocation.{
  here, grant-Sent, IsRevoked, same-IsRevoked, IsRevoked-trans, IsRevoked-cast, revoke-IsRevoked,
}
use stardatadblabs.Masking.Lockdown.{holds_exempt}
use stardatadblabs.Masking.Lockdown.Access.{grant_other}
use stardatadblabs.Routers.Exceptions.{
  grant_base_tables_to_user, relock_tables, relock_user_for_database, grant_users, relock_users,
}

-- `table` is one of the base tables, or the name of one of the views.
abbrev pub is_base : List (Text × Text) → Text → Bool
is_base tables table = any (λ p. text_eq p.0 table) tables

abbrev pub is_view : List (Text × Text) → Text → Bool
is_view tables table = any (λ p. text_eq p.1 table) tables

-- The server executes every grant.
abbrev pub Grants : Backend → Type 0
Grants B =
    (s : B.State) (d o u : Text) → (s' : B.State) × (B.execute s (grant_select d o u) ≡ some s')

module _ (B : Backend) {can : B.State → Text → Text → Text → Bool} (L : IsLawful B can) where
  relock_tables-IsRevoked :
      (d u : Text) (tables : List (Text × Text)) (t v : Text) (s : B.State)
      → is_view tables t ≡ false
      → IsRevoked B can d t v (text_eq u v && is_base tables t) s (relock_tables B d u tables s)
  unfolding relock_tables
  relock_tables-IsRevoked d u [] t v s clear = same-IsRevoked B can d t v _ s (ground arith)
  relock_tables-IsRevoked d u ((b, w) ∷ rest) t v s clear =
      let s1 = revoke_base_table_from_user B d b u s in
      let s2 = grant_view_to_user B d w u s1 in
      IsRevoked-cast B can d t v s _ (ground arith) (
        IsRevoked-trans B can d t v (text_eq b t && text_eq u v) (text_eq u v && is_base rest t) s
          s1 _ (revoke-IsRevoked B L d b u t v s)
          (IsRevoked-trans B can d t v false (text_eq u v && is_base rest t) s1 s2 _
            (grant-Sent B d w u s1, grant_other B L d w u t v s1 (ground arith))
            (relock_tables-IsRevoked d u rest t v s2 (ground arith))))

  relock_user-IsRevoked :
      (d u : Text) (remaining : List Text) (tables : List (Text × Text)) (t v : Text) (s : B.State)
      → is_view tables t ≡ false
      → IsRevoked B can d t v
          (text_eq u v && (not (holds_exempt remaining (B.role_names v)) && is_base tables t))
          s
          (relock_user_for_database B d u remaining tables s)
  unfolding relock_user_for_database
  relock_user-IsRevoked d u remaining tables t v s clear =
      by_roles (holds_exempt remaining (B.role_names u)) refl
    where
      by_roles :
          (b : Bool)
          → holds_exempt remaining (B.role_names u) ≡ b
          → IsRevoked B can d t v
              (text_eq u v && (not (holds_exempt remaining (B.role_names v)) && is_base tables t))
              s
              (if b then s else relock_tables B d u tables s)
      by_roles true e = same-IsRevoked B can d t v _ s (ground (arith, text_eq_iff u v, e))
      by_roles false e =
          IsRevoked-cast B can d t v s _ (ground (arith, text_eq_iff u v, e))
            (relock_tables-IsRevoked d u tables t v s clear)

  -- After the users of a role are relocked, none of them can read a masked base table by a grant,
  -- unless one of the user's roles still has an exception or the server refused the revocation. All
  -- other access to that table is as it was. The name of no view may be the table's.
  pub relock_users-IsRevoked :
      (d : Text) (remaining users : List Text) (tables : List (Text × Text)) (t v : Text)
      (s : B.State)
      → is_view tables t ≡ false
      → IsRevoked B can d t v
          (contains users v && (not (holds_exempt remaining (B.role_names v)) && is_base tables t))
          s
          (relock_users B d remaining users tables s)
  unfolding relock_users
  relock_users-IsRevoked d remaining [] tables t v s clear = (here, refl)
  relock_users-IsRevoked d remaining (u ∷ us) tables t v s clear =
      let s1 = relock_user_for_database B d u remaining tables s in
      IsRevoked-cast B can d t v s _ (ground arith) (
        IsRevoked-trans B can d t v
          (text_eq u v && (not (holds_exempt remaining (B.role_names v)) && is_base tables t))
          (contains us v && (not (holds_exempt remaining (B.role_names v)) && is_base tables t)) s
          s1 _ (relock_user-IsRevoked d u remaining tables t v s clear)
          (relock_users-IsRevoked d remaining us tables t v s1 clear))

  grant_on :
      (d o u o' v : Text) (s : B.State)
      → Grants B
      → can (attempt B (grant_select d o u) s) d o' v
        ≡ (if text_eq o o' && text_eq u v then true else can s d o' v)
  unfolding attempt
  grant_on d o u o' v s g =
      let (s', e) = g s d o u in
      rw (e, attempt) (L.grant_gives s s' d o u d o' v e ∙ rw (text_eq_refl d))

  grant_tables_access :
      (d u : Text) (tables : List (Text × Text)) (t v : Text) (s : B.State)
      → Grants B
      → can (grant_base_tables_to_user B d u tables s) d t v
        ≡ (if text_eq u v && is_base tables t then true else can s d t v)
  unfolding grant_base_tables_to_user
  grant_tables_access d u [] t v s g = ground arith
  grant_tables_access d u ((b, w) ∷ rest) t v s g =
      grant_tables_access d u rest t v (attempt B (grant_select d b u) s) g
      ∙ ground (arith, grant_on d b u t v s g)

  -- If the server executes the grants, exactly the given users gain access to exactly the base
  -- tables; all other access is as it was.
  pub grant_users-access :
      (d : Text) (users : List Text) (tables : List (Text × Text)) (t v : Text) (s : B.State)
      → Grants B
      → can (grant_users B d users tables s) d t v
        ≡ (if contains users v && is_base tables t then true else can s d t v)
  unfolding grant_users
  grant_users-access d [] tables t v s g = refl
  grant_users-access d (u ∷ us) tables t v s g =
      grant_users-access d us tables t v (grant_base_tables_to_user B d u tables s) g
      ∙ ground (arith, grant_tables_access d u tables t v s g)
