-- ===== src/Routers/Columns/Scan/Manual.antt =====
-- What a scan leaves alone (routers/columns.py, `scan_columns`).
use stardatadblabs.Base.{
  ℕ, ◌≡◌, refl, sym, ap, ◌∙◌, inl, inr, ◌<◌, Text, true, false, List, [], ◌∷◌, In, In-append-left,
  In-append_one, In-update, update-In, find-some, ==_iff, ◌==◌, Bool-cases, arith,
}
use mathlib.Core.Path.{subst}
use stardatadblabs.Catalog.Rows.{ColumnTag, Tables}
use stardatadblabs.Catalog.Session.{ok, Service}
use stardatadblabs.Classifier.Terms.{ColumnMatch}
use stardatadblabs.Routers.Columns.{is_tag_at, add_tag, save_tag}
use stardatadblabs.Routers.Columns.Scan.{
  ScanRequest, ScanTableResult, auto_tag, rescored, scan_columns,
}
use stardatadblabs.Routers.Columns.Scan.Writes.{IsWrite, scan_columns-keeps}

-- An id belongs to one tag, and the next id to none.
abbrev pub HasTagIds : Tables → Type 0
HasTagIds db =
    ((a b : ColumnTag) → In a db.tags → In b db.tags → a.id ≡ b.id → a ≡ b)
    × ((a : ColumnTag) → In a db.tags → a.id < db.next_id)

add_tag-HasTagIds :
    (t : ColumnTag) (db : Tables) → t.id ≡ db.next_id → HasTagIds db → HasTagIds (add_tag t db)
add_tag-HasTagIds t db fresh (one, below) = (
  λ a b m n e. elim (In-append_one a t db.tags m) [
    | inl i ↦ elim (In-append_one b t db.tags n) [
      | inl j ↦ one a b i j e
      | inr q ↦ ground (arith, below a i, ap (λ x. x.id) q)
    ]
    | inr p ↦ elim (In-append_one b t db.tags n) [
      | inl j ↦ ground (arith, below b j, ap (λ x. x.id) p)
      | inr q ↦ p ∙ sym q
    ]
  ],
  λ a m. elim (In-append_one a t db.tags m) [
    | inl i ↦ omega (arith, below a i)
    | inr p ↦ omega (arith, fresh, ap (λ x. x.id) p)
  ],
)

not_same : (a b : ℕ) → (a == b) ≡ false → a ≡ b → ⊥
not_same a b n e = ground arith

save_tag-HasTagIds :
    (old t : ColumnTag) (db : Tables)
    → In old db.tags
    → t.id ≡ old.id
    → HasTagIds db
    → HasTagIds (save_tag t db)
save_tag-HasTagIds old t db stands same (one, below) = (
  λ a b m n e. elim (In-update (λ x. x.id == t.id) a t db.tags m) [
    | inl p ↦ elim (In-update (λ x. x.id == t.id) b t db.tags n) [
      | inl q ↦ p ∙ sym q
      | inr (j, r) ↦ absurd (not_same b.id t.id r (sym e ∙ ap (λ x. x.id) p))
    ]
    | inr (i, r) ↦ elim (In-update (λ x. x.id == t.id) b t db.tags n) [
      | inl q ↦ absurd (not_same a.id t.id r (e ∙ ap (λ x. x.id) q))
      | inr (j, r') ↦ one a b i j e
    ]
  ],
  λ a m. elim (In-update (λ x. x.id == t.id) a t db.tags m) [
    | inl p ↦ omega (arith, below old stands, same, ap (λ x. x.id) p)
    | inr (i, r) ↦ below a i
  ],
)

-- The tags that stood at first and are manual still stand.
abbrev KeepsManual : Tables → Tables → Type 0
KeepsManual before db =
    HasTagIds db × ((t : ColumnTag) → In t before.tags → t.auto_detected ≡ false → In t db.tags)

write_keeps :
    (body : ScanRequest) (table : Text) (m : ColumnMatch) (before db db' : Tables)
    → IsWrite body table m db db'
    → KeepsManual before db
    → KeepsManual before db'
write_keeps body table m before db db' (inl (free, e)) (ids, kept) =
    let t = auto_tag db.next_id body.stardata_database table m in
    subst (KeepsManual before) (sym e) (
      add_tag-HasTagIds t db refl ids,
      λ x i manual. In-append-left x db.tags (t ∷ []) (kept x i manual),
    )
write_keeps body table m before db db' (inr (t, found, auto, over, e)) (ids, kept) =
    let (stands, _) =
      find-some (is_tag_at body.stardata_database table m.column_name) db.tags t found in
    subst (KeepsManual before) (sym e) (
      save_tag-HasTagIds t (rescored m t) db stands refl ids,
      λ x i manual.
          update-In (λ y. y.id == t.id) (λ y. rescored m t) x db.tags (kept x i manual)
            (elim (Bool-cases (x.id == t.id)) [
              | inr n ↦ n
              | inl y ↦ absurd (
                  clash x t manual auto
                    (ids.0 x t (kept x i manual) stands ((==_iff x.id t.id).0 y)))
            ]),
    )
  where
    clash : (x t : ColumnTag) → x.auto_detected ≡ false → t.auto_detected ≡ true → x ≡ t → ⊥
    clash x t manual auto e = ground (arith, ap (λ y. y.auto_detected) e)

-- A scan always returns. Every manual tag is as before, whatever the scan matches and whether it
-- overwrites; and each tag still has an id of its own.
pub scan_columns-keeps_manual :
    (body : ScanRequest) (tables : List (Text × List ColumnMatch)) (s : Service)
    → HasTagIds s.tables
    → let (r, s') = scan_columns body tables s in
      (results : List ScanTableResult) × (r ≡ ok results)
      × HasTagIds s'.tables
      × ((t : ColumnTag) → In t s.tables.tags → t.auto_detected ≡ false → In t s'.tables.tags)
scan_columns-keeps_manual body tables s ids =
    let (results, e, kept) =
      scan_columns-keeps body (KeepsManual s.tables) tables
        (λ table ms m i j db db' step p. elim step [
          | inl same ↦ subst (KeepsManual s.tables) (sym same) p
          | inr (can, w) ↦ write_keeps body table m s.tables db db' w p
        ])
        s (ids, λ t i manual. i) in
    (results, e, kept.0, kept.1)

-- A dry run always returns and leaves the tables as they are.
pub scan_columns-dry_run :
    (body : ScanRequest) (tables : List (Text × List ColumnMatch)) (s : Service)
    → body.dry_run ≡ true
    → let (r, s') = scan_columns body tables s in
      (results : List ScanTableResult) × (r ≡ ok results) × (s'.tables ≡ s.tables)
scan_columns-dry_run body tables s dry =
    scan_columns-keeps body (λ db. db ≡ s.tables) tables
      (λ table ms m i j db db' step p. elim step [
        | inl same ↦ same ∙ p
        | inr ((_, _, _, wet), w) ↦ cc
      ])
      s refl
