-- ===== src/Masking/Lockdown.antt =====
-- The lockdown of a masked base table (masking.py, `_enforce_base_table_lockdown`).
pub mod Grantees
pub mod Access
use stardatadblabs.Base.{
  ℕ, Text, codes, text_eq, starts_with, contains, Bool, true, false, Option, none, some, List, [],
  ◌∷◌, ◌++◌, any, map, if◌then◌else◌,
}
use mathlib.Core.List.{reverse}
use stardatadblabs.Base.{◌==◌}
use stardatadblabs.Masking.Stardata.{
  Listing, no_connection, unlisted, found_users, Backend, grant_view_to_user,
  revoke_base_table_from_user,
}

-- `s.lstrip("'")`
unfoldable pub lstrip_quotes : Text → Text
lstrip_quotes [] = []
lstrip_quotes (c ∷ s) = let rest = lstrip_quotes s in if c == 39 then rest else c ∷ s

-- `s.strip("'")`
unfoldable pub strip_quotes : Text → Text
unfolding lstrip_quotes
strip_quotes s = reverse (lstrip_quotes (reverse (lstrip_quotes s)))

-- `s.split(sep)[0]`, for a separator that is not empty.
unfoldable pub before_sep : Text → Text → Text
before_sep sep [] = []
before_sep sep (c ∷ s) =
    let rest = before_sep sep s in if starts_with (c ∷ s) sep then [] else c ∷ rest

-- `"'@'"`
abbrev pub quote_at : Text
quote_at = 39 ∷ b'@' ∷ 39 ∷ []

-- The user's name in a GRANTEE of the form `'user'@'host'`.
unfoldable pub raw_user : Text → Text
unfolding strip_quotes before_sep
raw_user grantee = before_sep quote_at (strip_quotes grantee)

abbrev pub holds_exempt : List Text → List Text → Bool
holds_exempt exempt_roles roles = any (contains exempt_roles) roles

module _ (B : Backend) (suffix : Text) where
  -- One round of the loop over the users.
  unfoldable pub lock_user : Text → Text → List Text → Text → B.State → B.State
  lock_user database table exempt_roles user s =
      if holds_exempt exempt_roles (B.role_names user)
      then s
      else grant_view_to_user B database (table ++ suffix) user
          (revoke_base_table_from_user B database table user s)

  unfoldable pub lock_users : Text → Text → List Text → List Text → B.State → B.State
  unfolding lock_user
  lock_users database table exempt_roles [] s = s
  lock_users database table exempt_roles (u ∷ us) s =
      lock_users database table exempt_roles us (lock_user database table exempt_roles u s)

  -- None where the connection raises; where the query fails, nothing is done.
  abbrev pub lock_listed : Text → Text → List Text → B.State → Listing → Option B.State
  lock_listed database table exempt_roles s no_connection = none
  lock_listed database table exempt_roles s unlisted = some s
  lock_listed database table exempt_roles s (found_users rows) =
      some (lock_users database table exempt_roles (map raw_user rows) s)

  unfoldable pub enforce_base_table_lockdown : Text → Text → List Text → B.State → Option B.State
  unfolding lock_users raw_user
  enforce_base_table_lockdown database table exempt_roles s =
      lock_listed database table exempt_roles s (B.grantees s)
