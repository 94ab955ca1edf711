-- ===== src/Masking/Apply/Again.antt =====
-- A view that is current is left alone (masking.py, `apply_masking_view`).
use stardatadblabs.Base.{
  ◌≡◌, refl, sym, ap, ◌∙◌, inl, inr, Text, text_eq_refl, Bool, true, false, some, List, [], ◌∷◌,
  ◌++◌, keep, Bool-cases,
}
use stardatadblabs.Base.Dict.{Dict, keys}
use mathlib.Core.Path.{subst}
use stardatadblabs.Catalog.Rows.{ColumnTag, StardataViewManifest, Tables}
use stardatadblabs.Masking.Ddl.{build_view_ddl}
use stardatadblabs.Masking.Route.{is_governance_enabled, is_tag_of, tags_of, manifest_of}
use stardatadblabs.Masking.Stardata.{Backend}
use stardatadblabs.Masking.Apply.{
  unchanged, masked_exprs, World, apply_columns, apply_masks, apply_tags, apply_masking_view,
}
use stardatadblabs.Masking.Apply.Branches.{is_applied, masks_of, ddl_of, apply_masking_view-cases}
use stardatadblabs.Masking.Apply.Persist.{
  new_manifest, manifest_of-persist, persist-others, masked_exprs-persist,
}

module _ (B : Backend) (suffix database table : Text) where
  again_masks :
      (force : Bool) (masks : Dict Text) (cols : List Text) (m : StardataViewManifest)
      (w w' : World B)
      → is_applied (apply_masks B suffix database table false force masks w).0.action ≡ true
      → B.column_order w'.server database table ≡ some cols
      → manifest_of database table w'.tables ≡ some m
      → m.view_checksum ≡ B.md5 (build_view_ddl database table (table ++ suffix) cols masks)
      → let (r, w'') = apply_masks B suffix database table false false masks w' in
        (r.action ≡ unchanged) × (w'' ≡ w')
  unfolding apply_masks apply_columns
  again_masks force [] cols m w w' done ordered found sum = cc
  again_masks force (k ∷ ks) cols m w w' done ordered found sum =
      let view_ddl = build_view_ddl database table (table ++ suffix) cols (k ∷ ks) in
      rw (ordered, apply_masks) (rw (found, sum, text_eq_refl (B.md5 view_ddl)) (refl, refl))

  again_tags :
      (force : Bool) (tags : List ColumnTag) (cols : List Text) (m : StardataViewManifest)
      (w w' : World B)
      → is_applied (apply_tags B suffix database table false force tags w).0.action ≡ true
      → masked_exprs w'.tables tags [] ≡ masked_exprs w.tables tags []
      → B.column_order w'.server database table ≡ some cols
      → manifest_of database table w'.tables ≡ some m
      → m.view_checksum
        ≡ B.md5
            (build_view_ddl database table (table ++ suffix) cols (masked_exprs w.tables tags []))
      → let (r, w'') = apply_tags B suffix database table false false tags w' in
        (r.action ≡ unchanged) × (w'' ≡ w')
  unfolding apply_tags
  again_tags force [] cols m w w' done same ordered found sum = cc
  again_tags force (t ∷ ts) cols m w w' done same ordered found sum =
      rw same
        (again_masks force (masked_exprs w.tables (t ∷ ts) []) cols m w w' done ordered found sum)

  -- An application needs the switch on, and comes from the tags.
  applied_tags :
      (force : Bool) (w : World B)
      → is_applied (apply_masking_view B suffix database table false force w).0.action ≡ true
      → (is_governance_enabled database w.tables ≡ true)
        × (is_applied
              (apply_tags B suffix database table false force
                (tags_of database table w.tables)
                w).0.action
            ≡ true)
  unfolding apply_masking_view
  applied_tags force w done = elim (Bool-cases (is_governance_enabled database w.tables)) [
    | inl on ↦ (on, rw on at done)
    | inr off ↦ cc (rw off at done)
  ]

  switch_kept :
      (db db' : Tables)
      → db.switches ≡ db'.switches
      → is_governance_enabled database db ≡ is_governance_enabled database db'
  unfolding is_governance_enabled
  switch_kept db db' e = rw e refl

  again_view :
      (force : Bool) (cols : List Text) (m : StardataViewManifest) (w w' : World B)
      → is_applied (apply_masking_view B suffix database table false force w).0.action ≡ true
      → w'.tables.switches ≡ w.tables.switches
      → w'.tables.tags ≡ w.tables.tags
      → ((tags : List ColumnTag) → masked_exprs w'.tables tags [] ≡ masked_exprs w.tables tags [])
      → B.column_order w'.server database table ≡ some cols
      → manifest_of database table w'.tables ≡ some m
      → m.view_checksum ≡ B.md5 (ddl_of B suffix database table w cols)
      → let (r, w'') = apply_masking_view B suffix database table false false w' in
        (r.action ≡ unchanged) × (w'' ≡ w')
  unfolding apply_masking_view
  again_view force cols m w w' done switches tags masks ordered found sum =
      let (on, run) = applied_tags force w done in
      rw (switch_kept w'.tables w.tables switches ∙ on) (
        subst
          (λ ts.
            let (r, w'') = apply_tags B suffix database table false false ts w' in
            (r.action ≡ unchanged) × (w'' ≡ w'))
          (sym (ap (keep (is_tag_of database table)) tags))
          (again_tags force (tags_of database table w.tables) cols m w w' run
            (masks (tags_of database table w.tables)) ordered found sum))

  -- A view that has just been created or updated is current: as long as the table's columns are the
  -- same, another call that is not forced answers `unchanged` and changes nothing.
  pub apply_masking_view-again :
      (force : Bool) (w : World B)
      → let (r, w') = apply_masking_view B suffix database table false force w in
        is_applied r.action ≡ true
        → B.column_order w'.server database table ≡ B.column_order w.server database table
        → let (r', w'') = apply_masking_view B suffix database table false false w' in
          (r'.action ≡ unchanged) × (w'' ≡ w')
  apply_masking_view-again force w done stable =
      let (r, w') = apply_masking_view B suffix database table false force w in
      elim (apply_masking_view-cases B suffix database table false force w).0 [
        | inl (idle, _) ↦ cc
        | inr (inr (cols, s, ordered, x)) ↦ absurd (cc (ap is_applied x.action, done))
        | inr (inl (cols, s, ordered, x)) ↦
            let old = manifest_of database table w.tables in
            let masked = keys (masks_of B suffix database table w) in
            let view_ddl = ddl_of B suffix database table w cols in
            let checksum = B.md5 view_ddl in
            let view_name = table ++ suffix in
            let (found, _, sum, _) =
              manifest_of-persist database table view_name view_ddl masked checksum old w.tables
                refl in
            let (tags, _, _, _, switches) =
              persist-others database table view_name view_ddl masked checksum old w.tables in
            again_view force cols
              (new_manifest database table view_name view_ddl masked checksum old w.tables) w w'
              done (rw x.tables switches) (rw x.tables tags)
              (λ ts. rw x.tables (
                masked_exprs-persist database table view_name view_ddl masked checksum old w.tables
                  ts []))
              (stable ∙ ordered) (rw x.tables found) sum
      ]
