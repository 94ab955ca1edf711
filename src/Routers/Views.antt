-- ===== src/Routers/Views.antt =====
-- Applying the masked views of a database or a table (routers/masking.py, `apply_masking`).
pub mod Runs
use stardatadblabs.Base.{
  Text, text_eq, Bool, true, false, Option, none, some, List, [], ◌∷◌, map, keep, if◌then◌else◌,
}
use stardatadblabs.Catalog.Rows.{ColumnTag, Tables}
use stardatadblabs.Masking.Stardata.{Backend}
use stardatadblabs.Masking.Apply.{
  ApplyAction, raised, ApplyResult, World, distinct, apply_masking_view,
}

pub record ApplyMaskingRequest : Type 0 where
  pub stardata_database : Text
  pub stardata_table : Option Text
  pub dry_run : Bool
  pub force : Bool

-- `if body.stardata_table`: an empty name counts as none.
abbrev pub chosen : Option Text → List Text → List Text
chosen none tables = tables
chosen (some []) tables = tables
chosen (some (c ∷ cs)) tables = (c ∷ cs) ∷ []

-- The tables to go through.
unfoldable pub tables_for : ApplyMaskingRequest → Tables → List Text
unfolding distinct
tables_for body db = chosen body.stardata_table (
    distinct (
      map (λ t. t.stardata_table)
        (keep (λ t. text_eq t.stardata_database body.stardata_database) db.tags)))

module _ (B : Backend) (suffix : Text) where
  abbrev pub is_raised : ApplyAction → Bool
  is_raised raised = true
  is_raised _ = false

  abbrev pub add_result :
      Text
      → ApplyResult
      → Option (List (Text × ApplyResult)) × World B
      → Option (List (Text × ApplyResult)) × World B
  add_result table res (none, w) = (none, w)
  add_result table res (some results, w) = (some ((table, res) ∷ results), w)

  -- None where a table raises: those after it are not reached.
  unfoldable pub apply_tables :
      ApplyMaskingRequest → List Text → World B → Option (List (Text × ApplyResult)) × World B
  apply_tables body [] w = (some [], w)
  apply_tables body (table ∷ tables) w =
      let (res, w') =
        apply_masking_view B suffix body.stardata_database table body.dry_run body.force w in
      let rest = apply_tables body tables w' in
      if is_raised res.action then (none, w') else add_result table res rest

  unfoldable pub apply_masking :
      ApplyMaskingRequest → World B → Option (List (Text × ApplyResult)) × World B
  unfolding apply_tables tables_for
  apply_masking body w = apply_tables body (tables_for body w.tables) w
