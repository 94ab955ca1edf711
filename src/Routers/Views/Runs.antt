-- ===== src/Routers/Views/Runs.antt =====
-- What a run over the tables of a database leaves alone (routers/masking.py, `apply_masking`).
use stardatadblabs.Base.{
  ◌≡◌, refl, ap, ◌∙◌, Text, true, false, Bool, Option, none, some, List, [], ◌∷◌, All, map,
  if◌then◌else◌,
}
use stardatadblabs.Masking.Stardata.{Backend}
use stardatadblabs.Masking.Route.{is_governance_enabled}
use stardatadblabs.Masking.Apply.{skipped, ApplyResult, World, apply_masking_view}
use stardatadblabs.Masking.Apply.Branches.{apply_masking_view-cases}
use stardatadblabs.Routers.Views.{
  ApplyMaskingRequest, is_raised, add_result, tables_for, apply_tables, apply_masking,
}

module _ (B : Backend) (suffix : Text) where
  added_same :
      (b : Bool) (table : Text) (res : ApplyResult) (w w' : World B)
      (rest : Option (List (Text × ApplyResult)) × World B)
      → w' ≡ w
      → rest.1 ≡ w'
      → (if b then (none, w') else add_result B suffix table res rest).1 ≡ w
  added_same true table res w w' rest same h = same
  added_same false table res w w' (none, v) same h = h ∙ same
  added_same false table res w w' (some results, v) same h = h ∙ same

  tables_dry :
      (body : ApplyMaskingRequest) (tables : List Text) (w : World B)
      → body.dry_run ≡ true
      → (apply_tables B suffix body tables w).1 ≡ w
  unfolding apply_tables
  tables_dry body [] w dry = refl
  tables_dry body (t ∷ ts) w dry =
      let database = body.stardata_database in
      let w' = (apply_masking_view B suffix database t body.dry_run body.force w).1 in
      let (_, _, same) = apply_masking_view-cases B suffix database t body.dry_run body.force w in
      added_same _ t _ w w' (apply_tables B suffix body ts w') (same dry)
        (tables_dry body ts w' dry)

  -- A dry run over the tables leaves the tables, the cache and the server as they are.
  pub apply_masking-dry_run :
      (body : ApplyMaskingRequest) (w : World B)
      → body.dry_run ≡ true
      → (apply_masking B suffix body w).1 ≡ w
  unfolding apply_masking
  apply_masking-dry_run body w dry = tables_dry body (tables_for body w.tables) w dry

  -- Every table was skipped.
  abbrev pub AllSkipped :
      List Text → World B → Option (List (Text × ApplyResult)) × World B → Type 0
  AllSkipped tables w (o, w') =
      (results : List (Text × ApplyResult)) × (o ≡ some results)
      × (map (λ p. p.0) results ≡ tables)
      × All (λ p. p.1.action ≡ skipped) results
      × (w' ≡ w)

  added_skipped :
      (table : Text) (tables : List Text) (res : ApplyResult) (w w' : World B)
      (rest : Option (List (Text × ApplyResult)) × World B)
      → res.action ≡ skipped
      → w' ≡ w
      → AllSkipped tables w' rest
      → AllSkipped
          (table ∷ tables)
          w
          (if is_raised B suffix res.action then (none, w') else add_result B suffix table res rest)
  added_skipped table tables res w w' (o, v) skip same (results, e, names, all, kept) =
      rw (skip, e)
        ((table, res) ∷ results, refl, ap (λ ns. table ∷ ns) names, (skip, all), kept ∙ same)

  tables_off :
      (body : ApplyMaskingRequest) (tables : List Text) (w : World B)
      → is_governance_enabled body.stardata_database w.tables ≡ false
      → AllSkipped tables w (apply_tables B suffix body tables w)
  unfolding apply_tables
  tables_off body [] w off = ([], refl, refl, tt, refl)
  tables_off body (t ∷ ts) w off =
      let database = body.stardata_database in
      let (res, w') = apply_masking_view B suffix database t body.dry_run body.force w in
      let (_, skips, _) = apply_masking_view-cases B suffix database t body.dry_run body.force w in
      let (skip, same) = skips off in
      added_skipped t ts res w w' (apply_tables B suffix body ts w') skip same
        (tables_off body ts w' (ap (λ x. is_governance_enabled database x.tables) same ∙ off))

  -- Where governance is off, a run goes over the same tables, skips every one and changes nothing.
  pub apply_masking-governance_off :
      (body : ApplyMaskingRequest) (w : World B)
      → is_governance_enabled body.stardata_database w.tables ≡ false
      → AllSkipped (tables_for body w.tables) w (apply_masking B suffix body w)
  unfolding apply_masking
  apply_masking-governance_off body w off = tables_off body (tables_for body w.tables) w off
