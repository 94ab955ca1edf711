-- ===== src/Masking/Stardata.antt =====
-- The Stardata server that the engine talks to (masking.py, `_stardata_execute`,
-- `_grant_view_to_user`, `_revoke_base_table_from_user`). The server itself, the RBAC control plane
-- and the digest are parameters: a `Backend`.
pub mod Revocation
use stardatadblabs.Base.{
  ◌≡◌, Text, codes, text_eq, Bool, true, false, ◌&&◌, Option, none, some, List, ◌++◌, if◌then◌else◌,
}
use stardatadblabs.Masking.Ddl.{quoted}

-- The statements that the program sends.
pub data Statement : Type 0 where
  create_view : Text → Statement
  grant_select revoke_select : Text → Text → Text → Statement

-- The text of a statement. `create_view` carries the DDL itself.
unfoldable pub render : Statement → Text
unfolding quoted
render (create_view ddl) = ddl
render (grant_select database object user) =
    codes "GRANT SELECT_PRIV ON "
    ++ (quoted database
        ++ (codes "." ++ (quoted object ++ (codes " TO '" ++ (user ++ codes "'@'%';")))))
render (revoke_select database object user) =
    codes "REVOKE SELECT_PRIV ON "
    ++ (quoted database
        ++ (codes "." ++ (quoted object ++ (codes " FROM '" ++ (user ++ codes "'@'%';")))))

-- What listing the users comes to: no connection, which raises, a query that fails, or their names.
pub data Listing : Type 0 where
  no_connection unlisted : Listing
  found_users : List Text → Listing

-- What the engine uses of the services around it. `execute` is none where the server raises, and
-- the server's state is then as before. `column_order` and `grantees` are the two queries of
-- information_schema, the first none where it raises. `role_names` is the RBAC client, which answers with no
-- roles if the control plane cannot be reached.
pub record Backend : Type 1 where
  pub State : Type 0
  pub execute : State → Statement → Option State
  pub column_order : State → Text → Text → Option (List Text)
  pub grantees : State → Listing
  pub role_names : Text → List Text
  pub md5 : Text → Text

module _ (B : Backend) where
  -- A statement whose errors are logged and ignored.
  unfoldable pub attempt : Statement → B.State → B.State
  attempt st s = elim (B.execute s st) [ none ↦ s | some s' ↦ s' ]

  unfoldable pub grant_view_to_user : Text → Text → Text → B.State → B.State
  unfolding attempt
  grant_view_to_user database view_name user = attempt (grant_select database view_name user)

  unfoldable pub revoke_base_table_from_user : Text → Text → Text → B.State → B.State
  unfolding attempt
  revoke_base_table_from_user database table user = attempt (revoke_select database table user)

-- Two grants of one privilege.
abbrev pub same_grant : Text → Text → Text → Text → Text → Text → Bool
same_grant d o u d' o' u' = text_eq d d' && (text_eq o o' && text_eq u u')

-- What the engine relies on. `can_select s d o u` says that the user `u` holds SELECT_PRIV on the
-- object `o` of the database `d` by a grant on that object. Nothing is said of a `REVOKE` that fails.
pub record IsLawful (B : Backend) (can_select : B.State → Text → Text → Text → Bool) : Type 0 where
  pub grant_gives :
      (s s' : B.State) (d o u d' o' u' : Text)
      → B.execute s (grant_select d o u) ≡ some s'
      → can_select s' d' o' u' ≡ (if same_grant d o u d' o' u' then true else can_select s d' o' u')
  pub revoke_takes :
      (s s' : B.State) (d o u d' o' u' : Text)
      → B.execute s (revoke_select d o u) ≡ some s'
      → can_select s' d' o' u'
        ≡ (if same_grant d o u d' o' u' then false else can_select s d' o' u')
  pub view_keeps :
      (s s' : B.State) (ddl d o u : Text)
      → B.execute s (create_view ddl) ≡ some s'
      → can_select s' d o u ≡ can_select s d o u
