-- ===== src/Examples/Requests.antt =====
-- The theorems on the request handlers, on the small catalog.
use stardatadblabs.Base.{
  ◌≡◌, refl, ◌≢◌, ◌⊎◌, inl, inr, Text, codes, text_eq, none, some, List, [], ◌∷◌, ap,
}
use stardatadblabs.Catalog.Rows.{ColumnTag, GovernanceDatabase, has_references}
use stardatadblabs.Catalog.Session.{ok, err, http, Service}
use stardatadblabs.Masking.Route.{base_table, is_governance_enabled, resolve_query_target}
use stardatadblabs.Routers.Switch.{
  DisableRequest, get_switch, disable_governance, enable_governance,
}
use stardatadblabs.Routers.Switch.Cycle.{enable_governance-unregistered}
use stardatadblabs.Routers.Switch.Routing.{disable-enable_routing}
use stardatadblabs.Routers.Columns.{ColumnTagCreate, create_column_tag, delete_column_tag}
use stardatadblabs.Routers.Columns.Edit.{create-delete_column_tag}
use stardatadblabs.Routers.Exceptions.{RoleExceptionCreate}
use stardatadblabs.Routers.Query.{MaskedQueryRequest, MaskedQueryResponse, plan_masked_query}
use stardatadblabs.Routers.Query.Plans.{IsPlan, plan_masked_query-IsPlan}
use stardatadblabs.Routers.Policies.{single_target}
use stardatadblabs.Routers.Policies.Targets.{HasSingleTargets}
use stardatadblabs.Examples.{shop, orders, email, suffix, ann, tables, service, tables-HasTagIds}

abbrev outage : DisableRequest
outage = record { reason = codes "outage"; disabled_by = codes "ann" }

abbrev off : Service
off = (disable_governance shop outage 8 service).1

enable_governance-unregistered_example :
    (get_switch shop service ≡ (err (http 404), service))
    × (enable_governance shop 9 service ≡ (err (http 409), service))
enable_governance-unregistered_example = enable_governance-unregistered shop 9 service refl

disable-enable_routing_example :
    let (r, s') = disable_governance shop outage 8 service in
    let (r', s'') = enable_governance shop 9 s' in
    ((row : GovernanceDatabase) × (r ≡ ok row))
    × ((row : GovernanceDatabase) × (r' ≡ ok row))
    × ((table : Text) (roles : List Text)
        → ((resolve_query_target suffix shop table roles s'.tables).target ≡ base_table)
          × (resolve_query_target suffix shop table roles s''.tables
              ≡ resolve_query_target suffix shop table roles tables))
unfolding is_governance_enabled
disable-enable_routing_example = disable-enable_routing suffix shop outage 8 9 service refl

abbrev name_body : ColumnTagCreate
name_body = record {
  stardata_database = shop;
  stardata_table = orders;
  column_name = codes "name";
  glossary_term_id = none;
  classification_id = some 1;
  override_reason = some (codes "names people");
}

create-delete_column_tag_example :
    let (r, s') = create_column_tag name_body service in
    let (r', s'') = delete_column_tag shop orders (codes "name") s' in
    ((t : ColumnTag) × (r ≡ ok t)) × (r' ≡ ok tt) × (s''.tables.tags ≡ tables.tags)
unfolding text_eq has_references
create-delete_column_tag_example =
    create-delete_column_tag name_body service tables-HasTagIds refl refl

abbrev analyst_body : RoleExceptionCreate
analyst_body = record {
  role_name = codes "analyst";
  classification_id = 1;
  granted_by = codes "admin";
}

abbrev query_body : MaskedQueryRequest
query_body = record {
  username = ann;
  stardata_database = shop;
  stardata_table = orders;
  columns = some (email ∷ []);
  where_clause = none;
  limit = 10;
}

plan_masked_query-IsPlan_example :
    ((codes "analyst" ∷ [] ≡ [])
      × (plan_masked_query suffix query_body (codes "analyst" ∷ []) tables ≡ err (http 404)))
    ⊎ ((codes "analyst" ∷ [] ≢ [])
        × (p : MaskedQueryResponse) × (plan_masked_query suffix query_body
              (codes "analyst" ∷ [])
              tables
            ≡ ok p)
        × IsPlan suffix query_body (codes "analyst" ∷ []) tables p)
plan_masked_query-IsPlan_example =
    plan_masked_query-IsPlan suffix query_body (codes "analyst" ∷ []) tables

tables-HasSingleTargets : HasSingleTargets tables
tables-HasSingleTargets p (inl e) = ap single_target e
tables-HasSingleTargets p (inr m) = absurd m
