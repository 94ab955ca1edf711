-- ===== src/Masking/Apply.antt =====
-- Building and applying a masked view (masking.py, `apply_masking_view`).
pub mod Branches
pub mod Masks
pub mod Persist
pub mod Effects
pub mod Again
use stardatadblabs.Base.{
  ℕ, ◌+◌, Text, codes, text_eq, contains, Bool, true, false, not, ◌&&◌, Option, none, some, is_some,
  List, [], ◌∷◌, ◌++◌, map, update, ◌==◌, if◌then◌else◌,
}
use stardatadblabs.Base.Dict.{Dict, insert, keys}
use stardatadblabs.Catalog.Rows.{
  ColumnTag, RoleMaskingException, MaskingAlgorithm, StardataViewManifest, Tables,
}
use stardatadblabs.Catalog.Cache
use stardatadblabs.Catalog.Cache.{TtlCache}
use stardatadblabs.Catalog.Session.{policy_cache_prefix}
use stardatadblabs.Masking.Policy.{resolve_policy_for_column}
use stardatadblabs.Masking.Ddl.{fill_column, build_view_ddl}
use stardatadblabs.Masking.Route.{is_governance_enabled, tags_of, manifest_of}
use stardatadblabs.Masking.Stardata.{Backend, create_view, grant_view_to_user}
use stardatadblabs.Masking.Lockdown.{enforce_base_table_lockdown}

-- `action` of the result. `raised` is none of the source's: it stands for the exception of a
-- connection that fails, in place of a result.
pub data ApplyAction : Type 0 where
  skipped error dry_run unchanged updated created raised : ApplyAction

-- `detail` of the result: the template that was chosen, and the DDL of a dry run.
pub data Detail : Type 0 where
  governance_disabled no_tags no_policies no_columns checksum_matches execute_failed : Detail
  ddl : Text → Detail

pub record ApplyResult : Type 0 where
  pub view_name : Text
  pub columns_masked : List Text
  pub action : ApplyAction
  pub detail : Option Detail

-- The body of the loop over the tags.
abbrev pub add_mask : Text → Option MaskingAlgorithm → Dict Text → Dict Text
add_mask col none masks = masks
add_mask col (some algo) masks = insert col (fill_column algo.stardata_expression col) masks

-- `masked_exprs`
unfoldable pub masked_exprs : Tables → List ColumnTag → Dict Text → Dict Text
masked_exprs db [] masks = masks
masked_exprs db (t ∷ ts) masks =
    masked_exprs db ts (add_mask t.column_name (resolve_policy_for_column t db) masks)

-- `select(RoleMaskingException.role_name).distinct()`
unfoldable pub distinct : List Text → List Text
distinct [] = []
distinct (r ∷ rs) = let rest = distinct rs in if contains rs r then rest else r ∷ rest

unfoldable pub exempt_roles : Tables → List Text
unfolding distinct
exempt_roles db = distinct (map (λ e. e.role_name) db.exceptions)

-- The manifest is written over, or added.
abbrev pub persist :
    Text → Text → Text → Text → List Text → Text → Option StardataViewManifest → Tables → Tables
persist database table view_name view_ddl masked checksum none db = record db {
  manifests =
      db.manifests
      ++ (record {
        id = db.next_id;
        stardata_database = database;
        base_table = table;
        view_name = view_name;
        view_ddl = view_ddl;
        columns_masked = masked;
        view_checksum = checksum;
      }
          ∷ []);
  next_id = db.next_id + 1;
}
persist database table view_name view_ddl masked checksum (some old) db = record db {
  manifests =
      update (λ m. m.id == old.id)
        (λ m. record m { view_ddl = view_ddl; view_checksum = checksum; columns_masked = masked })
        db.manifests;
}

module _ (B : Backend) where
  pub record World : Type 0 where
    pub tables : Tables
    pub cache : TtlCache
    pub server : B.State

module _ (B : Backend) (suffix : Text) where
  -- The grant to the demo user, after the view has been created.
  abbrev pub grant_analyst : Text → Text → B.State → B.State
  grant_analyst database table = grant_view_to_user B database (table ++ suffix) (codes "analyst")

  -- The grant and the lockdown; none where the lockdown raises.
  unfoldable pub enforce : Text → Text → Tables → B.State → Option B.State
  enforce database table db s =
      enforce_base_table_lockdown B suffix database table (exempt_roles db)
        (grant_analyst database table s)

  -- What follows the view, from the server's state before the lockdown and after it. Where the
  -- lockdown raises, no manifest is stored and the cache is not cleared.
  abbrev pub finish :
      Text
      → Text
      → List Text
      → Text
      → Option StardataViewManifest
      → World B
      → B.State
      → Option B.State
      → ApplyResult × World B
  finish database table masked view_ddl manifest w before none = (
    record { view_name = table ++ suffix; columns_masked = masked; action = raised; detail = none },
    record { tables = w.tables; cache = w.cache; server = before },
  )
  finish database table masked view_ddl manifest w before (some after) = (
    record {
      view_name = table ++ suffix;
      columns_masked = masked;
      action = if is_some manifest then updated else created;
      detail = none;
    },
    record {
      tables =
          persist database table (table ++ suffix) view_ddl masked (B.md5 view_ddl) manifest
            w.tables;
      cache = Cache.clear_prefix policy_cache_prefix w.cache;
      server = after;
    },
  )

  -- From the statement on.
  unfoldable pub apply_ddl :
      Text → Text → List Text → Text → Option StardataViewManifest → World B → ApplyResult × World B
  unfolding enforce
  apply_ddl database table masked view_ddl manifest w =
      elim (B.execute w.server (create_view view_ddl)) [
        | none ↦ (
          record {
            view_name = table ++ suffix;
            columns_masked = masked;
            action = error;
            detail = some execute_failed;
          },
          w,
        )
        | some s ↦
            finish database table masked view_ddl manifest w (grant_analyst database table s)
              (enforce database table w.tables s)
      ]

  -- `manifest and manifest.view_checksum == checksum and not force`
  abbrev pub is_current : Option StardataViewManifest → Text → Bool → Bool
  is_current none checksum force = false
  is_current (some m) checksum force = text_eq m.view_checksum checksum && not force

  -- From the DDL on.
  unfoldable pub apply_columns :
      Text → Text → Bool → Bool → Dict Text → List Text → World B → ApplyResult × World B
  unfolding apply_ddl
  apply_columns database table dry force masks cols w =
      let view_name = table ++ suffix in
      let view_ddl = build_view_ddl database table view_name cols masks in
      let manifest = manifest_of database table w.tables in
      if dry
      then (
        record {
          view_name = view_name;
          columns_masked = keys masks;
          action = dry_run;
          detail = some (ddl view_ddl);
        },
        w,
      )
      else if is_current manifest (B.md5 view_ddl) force
      then (
        record {
          view_name = view_name;
          columns_masked = keys masks;
          action = unchanged;
          detail = some checksum_matches;
        },
        w,
      )
      else apply_ddl database table (keys masks) view_ddl manifest w

  abbrev skip : Text → Detail → World B → ApplyResult × World B
  skip table why w = (
    record {
      view_name = table ++ suffix;
      columns_masked = [];
      action = skipped;
      detail = some why;
    },
    w,
  )

  -- From the masks on.
  unfoldable pub apply_masks :
      Text → Text → Bool → Bool → Dict Text → World B → ApplyResult × World B
  unfolding apply_columns
  apply_masks database table dry force [] w = skip table no_policies w
  apply_masks database table dry force (m ∷ ms) w = elim (B.column_order w.server database table) [
    | none ↦ (
      record {
        view_name = table ++ suffix;
        columns_masked = keys (m ∷ ms);
        action = error;
        detail = some no_columns;
      },
      w,
    )
    | some cols ↦ apply_columns database table dry force (m ∷ ms) cols w
  ]

  unfoldable pub apply_tags :
      Text → Text → Bool → Bool → List ColumnTag → World B → ApplyResult × World B
  unfolding apply_masks
  apply_tags database table dry force [] w = skip table no_tags w
  apply_tags database table dry force (t ∷ ts) w =
      apply_masks database table dry force (masked_exprs w.tables (t ∷ ts) []) w

  unfoldable pub apply_masking_view : Text → Text → Bool → Bool → World B → ApplyResult × World B
  unfolding apply_tags
  apply_masking_view database table dry force w =
      if is_governance_enabled database w.tables
      then apply_tags database table dry force (tags_of database table w.tables) w
      else skip table governance_disabled w
