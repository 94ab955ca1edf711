-- ===== src/Masking/Apply/Branches.antt =====
-- What `apply_masking_view` of masking.py leaves alone, and how it comes to change anything.
use stardatadblabs.Base.{
  ◌≡◌, ◌≢◌, refl, sym, ap, ◌∙◌, ◌⊎◌, inl, inr, Text, Bool, true, false, Option, none, some, List,
  [], ◌∷◌, ◌++◌, Bool-cases, Option-cases,
}
use stardatadblabs.Base.Dict.{Dict, keys}
use stardatadblabs.Catalog.Rows.{ColumnTag, StardataViewManifest}
use stardatadblabs.Catalog.Cache
use stardatadblabs.Catalog.Session.{policy_cache_prefix}
use stardatadblabs.Masking.Ddl.{build_view_ddl}
use stardatadblabs.Masking.Route.{is_governance_enabled, tags_of, manifest_of}
use stardatadblabs.Masking.Stardata.{
  Listing, no_connection, unlisted, found_users, Backend, create_view,
}
use stardatadblabs.Masking.Lockdown.{lock_listed, enforce_base_table_lockdown}
use stardatadblabs.Masking.Apply.{
  ApplyAction, ApplyResult, skipped, updated, created, masked_exprs, persist, World, enforce,
  grant_analyst, finish, exempt_roles, apply_ddl, is_current, apply_columns, apply_masks,
  apply_tags, apply_masking_view,
}

abbrev pub is_applied : ApplyAction → Bool
is_applied created = true
is_applied updated = true
is_applied ApplyAction.skipped = false
is_applied ApplyAction.error = false
is_applied ApplyAction.dry_run = false
is_applied ApplyAction.unchanged = false
is_applied ApplyAction.raised = false

module _ (B : Backend) (suffix database table : Text) where
  -- The view was created, and all that follows was done; `s` is the server's state in between.
  pub record IsExecuted (masked : List Text) (view_ddl : Text) (old : Option StardataViewManifest)
      (w w' : World B) (r : ApplyResult) (s : B.State) : Type 0 where
    pub executed : B.execute w.server (create_view view_ddl) ≡ some s
    pub connected : B.grantees (grant_analyst B suffix database table s) ≢ no_connection
    pub server : enforce B suffix database table w.tables s ≡ some w'.server
    pub cache : w'.cache ≡ Cache.clear_prefix policy_cache_prefix w.cache
    pub tables :
        w'.tables
        ≡ persist database table (table ++ suffix) view_ddl masked (B.md5 view_ddl) old w.tables
    pub columns : r.columns_masked ≡ masked

  -- The view was created and granted, and the connection for the lockdown failed: nothing else
  -- was done.
  pub record IsInterrupted (view_ddl : Text) (w w' : World B) (r : ApplyResult) (s : B.State)
      : Type 0 where
    pub executed : B.execute w.server (create_view view_ddl) ≡ some s
    pub interrupted : B.grantees (grant_analyst B suffix database table s) ≡ no_connection
    pub action : r.action ≡ ApplyAction.raised
    pub server : w'.server ≡ grant_analyst B suffix database table s
    pub tables : w'.tables ≡ w.tables
    pub cache : w'.cache ≡ w.cache

  -- The masks that the tags of the table give.
  abbrev pub masks_of : World B → Dict Text
  masks_of w = masked_exprs w.tables (tags_of database table w.tables) []

  abbrev pub ddl_of : World B → List Text → Text
  ddl_of w cols = build_view_ddl database table (table ++ suffix) cols (masks_of w)

  abbrev IsApplied :
      List Text
      → Text
      → Option StardataViewManifest
      → World B
      → ApplyResult × World B
      → B.State
      → Type 0
  IsApplied masked view_ddl old w (r, w') s =
      IsExecuted masked view_ddl old w w' r s ⊎ IsInterrupted view_ddl w w' r s

  not_connected :
      (w : World B) (s : B.State)
      → enforce B suffix database table w.tables s ≡ none
      → B.grantees (grant_analyst B suffix database table s) ≡ no_connection
  unfolding enforce enforce_base_table_lockdown
  not_connected w s h = by_listing (B.grantees (grant_analyst B suffix database table s)) h
    where
      by_listing :
          (g : Listing)
          → lock_listed B suffix database table
              (exempt_roles w.tables)
              (grant_analyst B suffix database table s)
              g
            ≡ none
          → g ≡ no_connection
      by_listing no_connection k = refl
      by_listing unlisted k = absurd (cc k)
      by_listing (found_users rows) k = absurd (cc k)

  is_connected :
      (w : World B) (s after : B.State)
      → enforce B suffix database table w.tables s ≡ some after
      → B.grantees (grant_analyst B suffix database table s) ≢ no_connection
  unfolding enforce enforce_base_table_lockdown
  is_connected w s after h e = absurd (
      cc (
        ap
          (lock_listed B suffix database table (exempt_roles w.tables)
            (grant_analyst B suffix database table s))
          (sym e)
        ∙ h))

  finish-cases :
      (masked : List Text) (view_ddl : Text) (old : Option StardataViewManifest) (w : World B)
      (s : B.State) (o : Option B.State)
      → B.execute w.server (create_view view_ddl) ≡ some s
      → enforce B suffix database table w.tables s ≡ o
      → IsApplied masked view_ddl old w
          (finish B suffix database table masked view_ddl old w
            (grant_analyst B suffix database table s)
            o)
          s
  finish-cases masked view_ddl old w s none e h = inr (record {
    executed = e;
    interrupted = not_connected w s h;
    action = refl;
    server = refl;
    tables = refl;
    cache = refl;
  })
  finish-cases masked view_ddl old w s (some after) e h = inl (record {
    executed = e;
    connected = is_connected w s after h;
    server = h;
    cache = refl;
    tables = refl;
    columns = refl;
  })

  apply_ddl-cases :
      (masked : List Text) (view_ddl : Text) (old : Option StardataViewManifest) (w : World B)
      → let out = apply_ddl B suffix database table masked view_ddl old w in
        (is_applied out.0.action ≡ false) × (out.1 ≡ w)
        ⊎ ((s : B.State) × IsApplied masked view_ddl old w out s)
  unfolding apply_ddl
  apply_ddl-cases masked view_ddl old w =
      elim (Option-cases (B.execute w.server (create_view view_ddl))) [
        | inl e ↦ inl (rw (e, apply_ddl) (refl, refl))
        | inr (s, e) ↦ inr (s, rw (e, apply_ddl) (finish-cases masked view_ddl old w s _ e refl))
      ]

  apply_columns-cases :
      (dry force : Bool) (masks : Dict Text) (cols : List Text) (w : World B)
      → let view_ddl = build_view_ddl database table (table ++ suffix) cols masks in
        let out = apply_columns B suffix database table dry force masks cols w in
        (is_applied out.0.action ≡ false) × (out.1 ≡ w)
        ⊎ ((s : B.State) × IsApplied
              (keys masks)
              view_ddl
              (manifest_of database table w.tables)
              w
              out
              s)
  unfolding apply_columns
  apply_columns-cases true force masks cols w = inl (refl, refl)
  apply_columns-cases false force masks cols w =
      let view_ddl = build_view_ddl database table (table ++ suffix) cols masks in
      let old = manifest_of database table w.tables in
      elim (Bool-cases (is_current B suffix old (B.md5 view_ddl) force)) [
        | inl current ↦ inl (rw current (refl, refl))
        | inr stale ↦ rw stale (apply_ddl-cases (keys masks) view_ddl old w)
      ]

  -- Nothing has changed, or the view was created for the columns of the table, and then either all
  -- that follows was done or the connection for the lockdown failed.
  abbrev pub Outcome : Dict Text → World B → ApplyResult × World B → Type 0
  Outcome masks w (r, w') =
      (is_applied r.action ≡ false) × (w' ≡ w)
      ⊎ ((cols : List Text) × (s : B.State) × (B.column_order w.server database table ≡ some cols)
          × IsExecuted (keys masks) (build_view_ddl database table (table ++ suffix) cols masks)
              (manifest_of database table w.tables) w w' r s)
      ⊎ ((cols : List Text) × (s : B.State) × (B.column_order w.server database table ≡ some cols)
          × IsInterrupted (build_view_ddl database table (table ++ suffix) cols masks) w w' r s)

  apply_masks-cases :
      (dry force : Bool) (masks : Dict Text) (w : World B)
      → Outcome masks w (apply_masks B suffix database table dry force masks w)
  unfolding apply_masks
  apply_masks-cases dry force [] w = inl (refl, refl)
  apply_masks-cases dry force (m ∷ ms) w =
      elim (Option-cases (B.column_order w.server database table)) [
        | inl q ↦ rw (q, apply_masks) (inl (refl, refl))
        | inr (cols, q) ↦
            rw (q, apply_masks)
              (elim (apply_columns-cases dry force (m ∷ ms) cols w) [
                | inl h ↦ inl h
                | inr (s, inl x) ↦ inr (inl (cols, s, refl, x))
                | inr (s, inr x) ↦ inr (inr (cols, s, refl, x))
              ])
      ]

  apply_tags-cases :
      (dry force : Bool) (tags : List ColumnTag) (w : World B)
      → Outcome
          (masked_exprs w.tables tags [])
          w
          (apply_tags B suffix database table dry force tags w)
  unfolding apply_tags
  apply_tags-cases dry force [] w = inl (refl, refl)
  apply_tags-cases dry force (t ∷ ts) w =
      apply_masks-cases dry force (masked_exprs w.tables (t ∷ ts) []) w

  apply_tags-dry :
      (force : Bool) (tags : List ColumnTag) (w : World B)
      → (apply_tags B suffix database table true force tags w).1 ≡ w
  unfolding apply_tags
  apply_tags-dry force [] w = refl
  apply_tags-dry force (t ∷ ts) w = masks_dry (masked_exprs w.tables (t ∷ ts) [])
    where
      masks_dry :
          (masks : Dict Text) → (apply_masks B suffix database table true force masks w).1 ≡ w
      masks_dry [] = refl
      masks_dry (m ∷ ms) = elim (Option-cases (B.column_order w.server database table)) [
        | inl q ↦ rw (q, apply_masks)
        | inr (cols, q) ↦ rw (q, apply_masks)
      ]

  pub apply_masking_view-cases :
      (dry force : Bool) (w : World B)
      → let out = apply_masking_view B suffix database table dry force w in
        Outcome (masks_of w) w out
        × (is_governance_enabled database w.tables ≡ false → (out.0.action ≡ skipped) × (out.1 ≡ w))
        × (dry ≡ true → out.1 ≡ w)
  unfolding apply_masking_view
  apply_masking_view-cases dry force w =
      let tags = tags_of database table w.tables in
      elim (Bool-cases (is_governance_enabled database w.tables)) [
        | inr off ↦ rw off (inl (refl, refl), λ h. (refl, refl), λ h. refl)
        | inl on ↦ rw on (
          apply_tags-cases dry force tags w,
          λ h. (cc, cc),
          λ h. rw h (apply_tags-dry force tags w),
        )
      ]
