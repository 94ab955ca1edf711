-- ===== src/Examples/Masking.antt =====
-- The theorems on policies, views, routing and lockdown, on the small catalog.
use stardatadblabs.Base.{
  ◌≡◌, refl, ap, ◌↔◌, ◌⊎◌, inl, inr, Text, codes, text_eq, false, none, some, List, [], ◌∷◌, In,
  any, map,
}
use stardatadblabs.Catalog.Rows.{ColumnTag, MaskingPolicy, MaskingAlgorithm, StardataViewManifest}
use stardatadblabs.Base.Dict.{insert}
use stardatadblabs.Masking.Policy.{top, policy_for_column, resolve_policy_for_column}
use stardatadblabs.Masking.Policy.Top.{applies}
use stardatadblabs.Masking.Policy.Best.{IsBest, policy_for_column-IsBest}
use stardatadblabs.Masking.Ddl.{clear, masked, projections}
use stardatadblabs.Masking.Route.{
  base_table, is_governance_enabled, tags_of, manifest_of, resolve_query_target,
}
use stardatadblabs.Masking.Route.Exceptions.{IsExempt, resolve_query_target_iff}
use stardatadblabs.Masking.Route.Roles.{unclassified_to_base_table}
use stardatadblabs.Masking.Lockdown.{enforce_base_table_lockdown, raw_user}
use stardatadblabs.Masking.Lockdown.Grantees.{grantee_text}
use stardatadblabs.Masking.Stardata.Revocation.{IsRevoked}
use stardatadblabs.Masking.Lockdown.Access.{is_locked}
use stardatadblabs.Masking.Apply.{unchanged, masked_exprs, exempt_roles, apply_masking_view}
use stardatadblabs.Masking.Apply.Branches.{ddl_of}
use stardatadblabs.Masking.Apply.Masks.{IsMaskOf, projections-masked_exprs}
use stardatadblabs.Masking.Apply.Effects.{apply_masking_view-manifest, apply_masking_view-lockdown}
use stardatadblabs.Masking.Apply.Again.{apply_masking_view-again}
use stardatadblabs.Examples.{
  shop, orders, email, suffix, ann, bob, email_tag, tables, server, server-IsLawful, can_select,
  world,
}

abbrev admin : List Text
admin = codes "data_admin" ∷ []

abbrev users : List Text
users = grantee_text ann ∷ grantee_text bob ∷ []

policy_for_column-IsBest_example :
    ((p : MaskingPolicy)
      → policy_for_column email_tag tables ≡ some p
      → IsBest email_tag tables.policies p)
    × ((policy_for_column email_tag tables ≡ none)
        ↔ (any (applies email_tag) tables.policies ≡ false))
policy_for_column-IsBest_example = policy_for_column-IsBest email_tag tables

projections-masked_exprs_example :
    let view = projections (email ∷ codes "city" ∷ []) (masked_exprs tables (email_tag ∷ []) []) in
    ((t : ColumnTag) (a : MaskingAlgorithm)
      → In t (email_tag ∷ [])
      → resolve_policy_for_column t tables ≡ some a
      → ¬ In (clear t.column_name) view)
    × ((c expr : Text) → In (masked expr c) view → IsMaskOf tables (email_tag ∷ []) c expr)
projections-masked_exprs_example =
    projections-masked_exprs tables (email_tag ∷ []) (email ∷ codes "city" ∷ [])

resolve_query_target_iff_example :
    ((resolve_query_target suffix shop orders admin tables).target ≡ base_table) ↔ (
      (is_governance_enabled shop tables ≡ false)
      ⊎ IsExempt admin (tags_of shop orders tables) tables.exceptions)
resolve_query_target_iff_example = resolve_query_target_iff suffix shop orders admin tables

unclassified_to_base_table_example :
    (resolve_query_target suffix shop orders []
      (record tables { tags = record email_tag { classification_id = none } ∷ [] })).target
    ≡ base_table
unfolding text_eq
unclassified_to_base_table_example =
    unclassified_to_base_table suffix shop orders []
      (record tables { tags = record email_tag { classification_id = none } ∷ [] })
      (λ t m. elim m [ inl e ↦ ap (λ x. x.classification_id) e | inr n ↦ absurd n ])

apply_masking_view-manifest_example :
    let (r, w') = apply_masking_view server suffix shop orders false false world in
    (cols : List Text) × (m : StardataViewManifest) × (server.column_order world.server shop orders
      ≡ some cols)
    × (manifest_of shop orders w'.tables ≡ some m)
    × (m.view_ddl ≡ ddl_of server suffix shop orders world cols)
    × (m.view_checksum ≡ server.md5 m.view_ddl)
    × (m.columns_masked ≡ r.columns_masked)
    × ((w'.tables.tags ≡ world.tables.tags)
        × (w'.tables.policies ≡ world.tables.policies)
        × (w'.tables.algorithms ≡ world.tables.algorithms)
        × (w'.tables.exceptions ≡ world.tables.exceptions)
        × (w'.tables.switches ≡ world.tables.switches))
unfolding apply_masking_view text_eq is_governance_enabled masked_exprs resolve_policy_for_column
    top insert enforce_base_table_lockdown
apply_masking_view-manifest_example =
    apply_masking_view-manifest server suffix shop orders false false world refl

apply_masking_view-lockdown_example :
    IsRevoked server can_select shop orders ann
      (is_locked server (exempt_roles tables) (map raw_user users) ann)
      world.server
      (apply_masking_view server suffix shop orders false false world).1.server
unfolding apply_masking_view text_eq is_governance_enabled masked_exprs resolve_policy_for_column
    top insert enforce_base_table_lockdown
apply_masking_view-lockdown_example =
    apply_masking_view-lockdown server suffix shop orders server-IsLawful users false false world
      ann (λ e. cc) (λ s. refl) refl

apply_masking_view-again_example :
    let (r, w') = apply_masking_view server suffix shop orders false false world in
    let (r', w'') = apply_masking_view server suffix shop orders false false w' in
    (r'.action ≡ unchanged) × (w'' ≡ w')
unfolding apply_masking_view text_eq is_governance_enabled masked_exprs resolve_policy_for_column
    top insert enforce_base_table_lockdown
apply_masking_view-again_example =
    apply_masking_view-again server suffix shop orders false world refl refl
