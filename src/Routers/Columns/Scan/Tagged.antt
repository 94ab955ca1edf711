-- ===== src/Routers/Columns/Scan/Tagged.antt =====
-- Where the tags come from that stand after a scan (routers/columns.py, `scan_columns`).
use stardatadblabs.Base.{
  ◌≡◌, refl, sym, ◌⊎◌, inl, inr, Text, text_eq, text_eq_iff, true, ◌&&◌, none, some, List, In,
  if◌then◌else◌, In-append_one, In-update, find-some, ◌==◌, arith,
}
use mathlib.Core.Path.{subst}
use stardatadblabs.Catalog.Rows.{ColumnTag, Tables}
use stardatadblabs.Catalog.Session.{ok, Service}
use stardatadblabs.Classifier.Terms.{ColumnMatch}
use stardatadblabs.Classifier.Classify.{is_medium}
use stardatadblabs.Routers.Columns.{is_tag_at}
use stardatadblabs.Routers.Columns.Scan.{
  ScanRequest, ScanTableResult, auto_tag, rescored, scan_columns,
}
use stardatadblabs.Routers.Columns.Scan.Writes.{IsTaggable, IsWrite, scan_columns-keeps}

-- The tag is an automatic one for a taggable match of the scan: it stands on the match's column, and
-- has its classification, its score, and its term unless the match is MEDIUM.
abbrev pub IsTagged : ScanRequest → List (Text × List ColumnMatch) → ColumnTag → Type 0
IsTagged body tables t =
    (ms : List ColumnMatch) × (m : ColumnMatch) × In (t.stardata_table, ms) tables
    × In m ms
    × IsTaggable body m
    × (t.stardata_database ≡ body.stardata_database)
    × (t.column_name ≡ m.column_name)
    × (t.auto_detected ≡ true)
    × (t.glossary_term_id ≡ (if is_medium m.confidence then none else m.term_id))
    × (t.classification_id ≡ m.classification_id)
    × (t.detection_score ≡ some m.score)

abbrev Comes : ScanRequest → List (Text × List ColumnMatch) → Tables → Tables → Type 0
Comes body tables before db =
    (t : ColumnTag) → In t db.tags → In t before.tags ⊎ IsTagged body tables t

tag_place :
    (a b c d e f : Text)
    → text_eq a d && (text_eq b e && text_eq c f) ≡ true
    → (a ≡ d) × (b ≡ e) × (c ≡ f)
tag_place a b c d e f h = (
  (text_eq_iff a d).0 (ground arith),
  (text_eq_iff b e).0 (ground arith),
  (text_eq_iff c f).0 (ground arith),
)

write-Comes :
    (body : ScanRequest) (tables : List (Text × List ColumnMatch)) (table : Text)
    (ms : List ColumnMatch) (m : ColumnMatch) (before db db' : Tables)
    → In (table, ms) tables
    → In m ms
    → IsTaggable body m
    → IsWrite body table m db db'
    → Comes body tables before db
    → Comes body tables before db'
write-Comes body tables table ms m before db db' i j can (inl (free, e)) old =
    let t = auto_tag db.next_id body.stardata_database table m in
    subst (Comes body tables before) (sym e) (λ x n. elim (In-append_one x t db.tags n) [
      | inl k ↦ old x k
      | inr q ↦ inr (
          subst (IsTagged body tables) (sym q)
            (ms, m, i, j, can, refl, refl, refl, refl, refl, refl))
    ])
write-Comes body tables table ms m before db db' i j can (inr (t, found, auto, over, e)) old =
    let (_, at_) =
      find-some (is_tag_at body.stardata_database table m.column_name) db.tags t found in
    let (same_db, same_table, same_column) =
      tag_place t.stardata_database t.stardata_table t.column_name body.stardata_database table
        m.column_name at_ in
    subst (Comes body tables before) (sym e) (λ x n.
      elim (In-update (λ y. y.id == t.id) x (rescored m t) db.tags n) [
        | inr (k, _) ↦ old x k
        | inl q ↦ inr (
            subst (IsTagged body tables) (sym q) (
              ms,
              m,
              subst (λ n. In (n, ms) tables) (sym same_table) i,
              j,
              can,
              same_db,
              same_column,
              auto,
              refl,
              refl,
              refl,
            ))
      ])

-- After a scan every tag stood there before, or is an automatic tag for a match of the scan with
-- HIGH or MEDIUM confidence, on the match's own column and with its classification and score; it is
-- linked to the match's term only if the confidence is HIGH.
pub scan_columns-IsTagged :
    (body : ScanRequest) (tables : List (Text × List ColumnMatch)) (s : Service)
    → let (r, s') = scan_columns body tables s in
      (results : List ScanTableResult) × (r ≡ ok results)
      × ((t : ColumnTag) → In t s'.tables.tags → In t s.tables.tags ⊎ IsTagged body tables t)
scan_columns-IsTagged body tables s =
    scan_columns-keeps body (Comes body tables s.tables) tables
      (λ table ms m i j db db' step p. elim step [
        | inl same ↦ subst (Comes body tables s.tables) (sym same) p
        | inr (can, w) ↦ write-Comes body tables table ms m s.tables db db' i j can w p
      ])
      s (λ t i. inl i)
