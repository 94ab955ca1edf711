-- ===== src/Masking/Apply/Effects.antt =====
-- What an application of a view leaves behind (masking.py, `apply_masking_view`).
use stardatadblabs.Base.{
  ◌≡◌, refl, sym, ap, ◌∙◌, ◌≢◌, inl, inr, Text, codes, Bool, true, false, some, List, [], ◌++◌, map,
}
use stardatadblabs.Base.Dict.{keys}
use stardatadblabs.Catalog.Rows.{StardataViewManifest}
use stardatadblabs.Masking.Route.{manifest_of}
use stardatadblabs.Masking.Stardata.{create_view, Backend, found_users, IsLawful}
use stardatadblabs.Masking.Stardata.Revocation.{
  grant-Sent, Sent-trans, executed-Sent, IsRevoked, IsRevoked-trans,
}
use stardatadblabs.Masking.Lockdown.{raw_user}
use stardatadblabs.Masking.Lockdown.Access.{
  is_locked, append-ne, grant_other, enforce_base_table_lockdown-IsRevoked,
}
use stardatadblabs.Masking.Apply.{exempt_roles, World, grant_analyst, enforce, apply_masking_view}
use stardatadblabs.Masking.Apply.Branches.{is_applied, masks_of, ddl_of, apply_masking_view-cases}
use stardatadblabs.Masking.Apply.Persist.{new_manifest, manifest_of-persist, persist-others}

module _ (B : Backend) (suffix database table : Text) where
  -- When a view has been created or updated, the manifest of the table holds the DDL of the table's
  -- present columns and masks, its checksum and the names of the masked columns that are reported.
  -- Tags, policies, algorithms, exceptions and switches are as before.
  pub apply_masking_view-manifest :
      (dry force : Bool) (w : World B)
      → let (r, w') = apply_masking_view B suffix database table dry force w in
        is_applied r.action ≡ true
        → (cols : List Text) × (m : StardataViewManifest) × (B.column_order w.server database table
            ≡ some cols)
          × (manifest_of database table w'.tables ≡ some m)
          × (m.view_ddl ≡ ddl_of B suffix database table w cols)
          × (m.view_checksum ≡ B.md5 m.view_ddl)
          × (m.columns_masked ≡ r.columns_masked)
          × ((w'.tables.tags ≡ w.tables.tags)
              × (w'.tables.policies ≡ w.tables.policies)
              × (w'.tables.algorithms ≡ w.tables.algorithms)
              × (w'.tables.exceptions ≡ w.tables.exceptions)
              × (w'.tables.switches ≡ w.tables.switches))
  apply_masking_view-manifest dry force w done =
      elim (apply_masking_view-cases B suffix database table dry force w).0 [
        | inl (idle, _) ↦ cc
        | inr (inr (cols, s, ordered, x)) ↦ absurd (cc (ap is_applied x.action, done))
        | inr (inl (cols, s, ordered, x)) ↦
            let old = manifest_of database table w.tables in
            let masked = keys (masks_of B suffix database table w) in
            let view_ddl = ddl_of B suffix database table w cols in
            let (found, e1, e2, e3) =
              manifest_of-persist database table (table ++ suffix) view_ddl masked (B.md5 view_ddl)
                old w.tables refl in
            let others =
              persist-others database table (table ++ suffix) view_ddl masked (B.md5 view_ddl) old
                w.tables in
            (
              cols,
              new_manifest database table (table ++ suffix) view_ddl masked (B.md5 view_ddl) old
                  w.tables,
              ordered,
              rw x.tables found,
              e1,
              e2 ∙ ap B.md5 (sym e1),
              e3 ∙ sym x.columns,
              rw x.tables others,
            )
      ]

  -- If a call returns that a view has been created or updated, no user that the server lists holds a
  -- grant on the base table afterwards, unless one of the user's roles has a masking exception for any
  -- classification, or the server refused a revocation of the grant while the user held it, which the
  -- program ignores; then the user's access is as it was. The access of every other user to the base
  -- table is as it was before. The suffix of views may not be empty.
  pub apply_masking_view-lockdown :
      {can : B.State → Text → Text → Text → Bool} (L : IsLawful B can) (rows : List Text)
      (dry force : Bool) (w : World B) (v : Text)
      → suffix ≢ []
      → ((s : B.State) → B.grantees s ≡ found_users rows)
      → let (r, w') = apply_masking_view B suffix database table dry force w in
        is_applied r.action ≡ true
        → IsRevoked B can database table v
            (is_locked B (exempt_roles w.tables) (map raw_user rows) v)
            w.server
            w'.server
  unfolding enforce
  apply_masking_view-lockdown {can} L rows dry force w v ne users done =
      elim (apply_masking_view-cases B suffix database table dry force w).0 [
        | inl (idle, _) ↦ absurd (cc (idle, done))
        | inr (inr (cols, s, ordered, x)) ↦ absurd (cc (ap is_applied x.action, done))
        | inr (inl (cols, s, ordered, x)) ↦
            let granted = grant_analyst B suffix database table s in
            let kept : can granted database table v ≡ can w.server database table v =
              grant_other B L database (table ++ suffix) (codes "analyst") table v s
                (append-ne table suffix ne)
              ∙ L.view_keeps w.server s (ddl_of B suffix database table w cols) database table v
                  x.executed in
            let reached =
              Sent-trans B
                (executed-Sent B w.server s (create_view (ddl_of B suffix database table w cols))
                  x.executed)
                (grant-Sent B database (table ++ suffix) (codes "analyst") s) in
            IsRevoked-trans B can database table v false
              (is_locked B (exempt_roles w.tables) (map raw_user rows) v) w.server granted _
              (reached, kept)
              (enforce_base_table_lockdown-IsRevoked B L suffix database table
                (exempt_roles w.tables) granted _ rows v (users granted) ne x.server)
      ]
