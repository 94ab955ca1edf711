-- ===== src/Masking/Apply/Persist.antt =====
-- The manifest that an application writes (masking.py, `apply_masking_view`).
use stardatadblabs.Base.{
  ◌≡◌, refl, Text, text_eq, text_eq_refl, Bool, true, ◌&&◌, Option, none, some, List, [], ◌∷◌, find,
  find-append, update, ◌==◌, arith,
}
use stardatadblabs.Base.Dict.{Dict}
use stardatadblabs.Catalog.Rows.{ColumnTag, StardataViewManifest, Tables}
use stardatadblabs.Masking.Policy.{resolve_policy_for_column}
use stardatadblabs.Masking.Route.{manifest_of}
use stardatadblabs.Masking.Apply.{masked_exprs, persist}

pub find-update_same :
    {A : Type 0} (p q : A → Bool) (f : A → A) (xs : List A) (a : A)
    → ((x : A) → p (f x) ≡ p x)
    → find p xs ≡ some a
    → q a ≡ true
    → find p (update q f xs) ≡ some (f a)
find-update_same p q f [] a same h t = cc
find-update_same p q f (x ∷ xs) a same h t =
    ground (arith, find-update_same p q f xs a same, same x)

-- The manifest that the table has after `persist`.
abbrev pub new_manifest :
    Text
    → Text
    → Text
    → Text
    → List Text
    → Text
    → Option StardataViewManifest
    → Tables
    → StardataViewManifest
new_manifest database table view_name view_ddl masked checksum none db = record {
  id = db.next_id;
  stardata_database = database;
  base_table = table;
  view_name = view_name;
  view_ddl = view_ddl;
  columns_masked = masked;
  view_checksum = checksum;
}
new_manifest database table view_name view_ddl masked checksum (some old) db = record old {
  view_ddl = view_ddl;
  view_checksum = checksum;
  columns_masked = masked;
}

module _ (database table view_name view_ddl : Text) (masked : List Text) (checksum : Text) where
  pub manifest_of-persist :
      (o : Option StardataViewManifest) (db : Tables)
      → manifest_of database table db ≡ o
      → let m = new_manifest database table view_name view_ddl masked checksum o db in
        (manifest_of database table (persist database table view_name view_ddl masked checksum o db)
          ≡ some m)
        × (m.view_ddl ≡ view_ddl)
        × (m.view_checksum ≡ checksum)
        × (m.columns_masked ≡ masked)
  manifest_of-persist none db e = (
    find-append (λ m. text_eq m.stardata_database database && text_eq m.base_table table)
        db.manifests _ e (rw (text_eq_refl database, text_eq_refl table)),
    refl,
    refl,
    refl,
  )
  manifest_of-persist (some old) db e = (
    find-update_same (λ m. text_eq m.stardata_database database && text_eq m.base_table table)
        (λ m. m.id == old.id)
        (λ m. record m { view_ddl = view_ddl; view_checksum = checksum; columns_masked = masked })
        db.manifests old (λ x. refl) e (ground arith),
    refl,
    refl,
    refl,
  )

  -- All other tables are as before, and so is what they determine.
  pub persist-others :
      (o : Option StardataViewManifest) (db : Tables)
      → let db' = persist database table view_name view_ddl masked checksum o db in
        (db'.tags ≡ db.tags)
        × (db'.policies ≡ db.policies)
        × (db'.algorithms ≡ db.algorithms)
        × (db'.exceptions ≡ db.exceptions)
        × (db'.switches ≡ db.switches)
  persist-others none db = (refl, refl, refl, refl, refl)
  persist-others (some old) db = (refl, refl, refl, refl, refl)

  pub masked_exprs-persist :
      (o : Option StardataViewManifest) (db : Tables) (tags : List ColumnTag) (d : Dict Text)
      → masked_exprs (persist database table view_name view_ddl masked checksum o db) tags d
        ≡ masked_exprs db tags d
  unfolding masked_exprs resolve_policy_for_column
  masked_exprs-persist none db [] d = refl
  masked_exprs-persist none db (t ∷ ts) d = masked_exprs-persist none db ts _
  masked_exprs-persist (some old) db [] d = refl
  masked_exprs-persist (some old) db (t ∷ ts) d = masked_exprs-persist (some old) db ts _
