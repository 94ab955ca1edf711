-- ===== src/Masking/Route.antt =====
-- The governance switch and the routing of queries (masking.py, `_is_governance_enabled` and
-- `resolve_query_target`). The settings' `masked_view_suffix` is an argument.
pub mod Exceptions
pub mod Roles
use stardatadblabs.Base.{
  ℕ, Text, codes, text_eq, contains, Bool, true, false, not, ◌&&◌, Option, none, some, List, [],
  ◌∷◌, ◌++◌, find, keep, any, ◌==◌, next_or, if◌then◌else◌,
}
use stardatadblabs.Catalog.Rows.{
  ColumnTag, RoleMaskingException, GovernanceDatabase, StardataViewManifest, Tables,
}

-- `True` where the database has no row.
unfoldable pub is_governance_enabled : Text → Tables → Bool
is_governance_enabled database db =
    elim (find (λ g. text_eq g.stardata_database database) db.switches) [
      | none ↦ true
      | some row ↦ row.governance_enabled
    ]

abbrev pub is_tag_of : Text → Text → ColumnTag → Bool
is_tag_of database table t = text_eq t.stardata_database database && text_eq t.stardata_table table

-- `select(ColumnTag).where(…)`
abbrev pub tags_of : Text → Text → Tables → List ColumnTag
tags_of database table db = keep (is_tag_of database table) db.tags

-- `select(StardataViewManifest).where(…)`
abbrev pub manifest_of : Text → Text → Tables → Option StardataViewManifest
manifest_of database table db =
    find (λ m. text_eq m.stardata_database database && text_eq m.base_table table) db.manifests

abbrev pub contains_id : List ℕ → ℕ → Bool
contains_id ids k = any (λ i. i == k) ids

abbrev pub with_id : Option ℕ → List ℕ → List ℕ
with_id none ids = ids
with_id (some k) ids = k ∷ ids

-- `{t.classification_id for t in tags if t.classification_id is not None}`
unfoldable pub classification_ids : List ColumnTag → List ℕ
classification_ids [] = []
classification_ids (t ∷ ts) = with_id t.classification_id (classification_ids ts)

-- `RoleMaskingException.role_name.in_(roles), RoleMaskingException.classification_id.in_(ids)`
abbrev pub covers : List Text → List ℕ → RoleMaskingException → Bool
covers roles ids e = contains roles e.role_name && contains_id ids e.classification_id

unfoldable pub exempt_class_ids : List RoleMaskingException → List ℕ
exempt_class_ids [] = []
exempt_class_ids (e ∷ es) = e.classification_id ∷ exempt_class_ids es

-- `ids.issubset(others)`
unfoldable pub issubset : List ℕ → List ℕ → Bool
issubset [] others = true
issubset (k ∷ ks) others = contains_id others k && issubset ks others

pub data Target : Type 0 where
  base_table masked_view : Target

pub record QueryTarget : Type 0 where
  pub target : Target
  pub view_name : Text
  pub columns_masked : List Text
  pub role : Text

-- `priority_order`
abbrev pub priority_order : List Text
priority_order =
    codes "data_admin"
    ∷ codes "platform_admin"
    ∷ codes "account_admin"
    ∷ codes "data_engineer"
    ∷ codes "iceberg_engineer"
    ∷ codes "etl_writer"
    ∷ codes "analyst"
    ∷ codes "kafka_consumer"
    ∷ codes "snowflake_reader"
    ∷ codes "spark_user"
    ∷ []

-- `roles[0] if roles else "unknown"`
unfoldable pub first_role : List Text → Text
first_role [] = codes "unknown"
first_role (r ∷ rs) = r

-- `next((r for r in priority_order if r in roles), …)`
unfoldable pub highest_role : List Text → Text
unfolding first_role
highest_role roles = next_or (contains roles) (first_role roles) priority_order

unfoldable pub has_full_exception : List Text → List ColumnTag → List RoleMaskingException → Bool
unfolding issubset exempt_class_ids classification_ids
has_full_exception roles tags exceptions =
    let ids = classification_ids tags in
    issubset ids (exempt_class_ids (keep (covers roles ids) exceptions))

abbrev pub masked_columns : Option StardataViewManifest → List Text
masked_columns none = []
masked_columns (some m) = m.columns_masked

-- The decision for a table that has tags.
unfoldable pub route_tagged : Text → Text → List Text → Text → List ColumnTag → Tables → QueryTarget
unfolding has_full_exception highest_role
route_tagged database table roles view_name tags db =
    if has_full_exception roles tags db.exceptions
    then record {
      target = base_table;
      view_name = view_name;
      columns_masked = [];
      role = highest_role roles;
    }
    else record {
      target = masked_view;
      view_name = view_name;
      columns_masked = masked_columns (manifest_of database table db);
      role = highest_role roles;
    }

abbrev direct_access : Text → List Text → QueryTarget
direct_access view_name roles = record {
  target = base_table;
  view_name = view_name;
  columns_masked = [];
  role = first_role roles;
}

unfoldable pub route : Text → Text → List Text → Text → List ColumnTag → Tables → QueryTarget
unfolding route_tagged first_role
route database table roles view_name [] db = direct_access view_name roles
route database table roles view_name (t ∷ ts) db =
    route_tagged database table roles view_name (t ∷ ts) db

unfoldable pub resolve_query_target : Text → Text → Text → List Text → Tables → QueryTarget
unfolding is_governance_enabled route first_role
resolve_query_target suffix database table roles db =
    let view_name = table ++ suffix in
    if not (is_governance_enabled database db)
    then direct_access view_name roles
    else route database table roles view_name (tags_of database table db) db
