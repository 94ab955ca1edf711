-- ===== src/Routers/Columns/Request/Justified.antt =====
-- Every tag of a scan goes back to a term of the glossary (routers/columns.py with classifier.py).
use stardatadblabs.Base.{
  ℕ, ◌≡◌, refl, sym, ◌∙◌, ◌⊎◌, inl, inr, Text, true, Option, none, some, List, In,
}
use mathlib.Core.Path.{subst}
use stardatadblabs.Base.Dict.{Dict}
use stardatadblabs.Catalog.Rows.{ColumnTag, Tables}
use stardatadblabs.Catalog.Session.{Result, ok, err, unavailable, Service, ◌>>=◌, or_raise}
use stardatadblabs.Classifier.Terms.{ColumnMatch, TermSpec}
use stardatadblabs.Classifier.Classify.{normalise}
use stardatadblabs.Classifier.Classify.Provenance.{IsFrom, IsJustified}
use stardatadblabs.Classifier.Scan.{load_term_specs}
use stardatadblabs.Routers.Columns.Scan.{ScanRequest, ScanTableResult, scan_columns}
use stardatadblabs.Routers.Columns.Scan.Tagged.{IsTagged, scan_columns-IsTagged}
use stardatadblabs.Routers.Columns.Request.{tables_matches, post_scan}
use stardatadblabs.Routers.Columns.Request.Matches.{
  All-In, taggable, scan_table-AllJustified, matches_scanned,
}

module _ (columns_of : Text → Text → Option (List Text)) where
  module _ (suffix : Text) (names_of : Text → Option (List Text)) where
    -- The tag is an automatic one, on the column of a match that a term of the glossary justifies.
    abbrev pub IsFromGlossary : ℕ → Tables → ColumnTag → Type 0
    IsFromGlossary threshold db t =
        (m : ColumnMatch) × (ts : TermSpec) × In ts (load_term_specs db)
        × IsFrom threshold (normalise t.stardata_table) (normalise t.column_name) m ts
        × (t.column_name ≡ m.column_name)
        × (t.auto_detected ≡ true)
        × (t.classification_id ≡ ts.classification_id)
        × (t.detection_score ≡ some m.score)

    abbrev Scanned : ℕ → Service → Result (List ScanTableResult) × Service → Type 0
    Scanned threshold s (r, s') =
        ((r ≡ err unavailable) × (s' ≡ s))
        ⊎ ((results : List ScanTableResult) × (r ≡ ok results)
            × ((t : ColumnTag)
                → In t s'.tables.tags
                → In t s.tables.tags ⊎ IsFromGlossary threshold s.tables t))

    tagged_from :
        (threshold : ℕ) (table : Option Text) (body : ScanRequest) (db : Tables)
        (found : Dict (List ColumnMatch)) (t : ColumnTag)
        → tables_matches columns_of suffix names_of body.stardata_database table
            (load_term_specs db)
            threshold
          ≡ some found
        → IsTagged body found t
        → IsFromGlossary threshold db t
    tagged_from threshold table body db found t e
          (ms, m, i, j, (r, l, _, _), same_db, column, auto, term, class, score) =
        let specs = load_term_specs db in
        let scanned =
          matches_scanned columns_of suffix names_of body.stardata_database table specs threshold
            found t.stardata_table ms e i in
        let just =
          All-In
            (λ x.
              IsJustified specs threshold (normalise t.stardata_table) (normalise x.column_name) x)
            m ms
            (scan_table-AllJustified columns_of body.stardata_database t.stardata_table specs
              threshold ms scanned)
            j in
        let (ts, k, from) = just (taggable m.confidence r l) in
        (
          m,
          ts,
          k,
          subst (λ c. IsFrom threshold (normalise t.stardata_table) (normalise c) m ts) (sym column)
              from,
          column,
          auto,
          class ∙ from.class_id,
          score,
        )

    after_matches :
        (threshold : ℕ) (table : Option Text) (body : ScanRequest) (s : Service)
        (o : Option (Dict (List ColumnMatch)))
        → tables_matches columns_of suffix names_of body.stardata_database table
            (load_term_specs s.tables)
            threshold
          ≡ o
        → Scanned threshold s ((or_raise o unavailable >>= scan_columns body) s)
    after_matches threshold table body s none e = inl (refl, refl)
    after_matches threshold table body s (some found) e =
        let (results, q, all) = scan_columns-IsTagged body found s in
        inr (
          results,
          q,
          λ t i. elim (all t i) [
            | inl old ↦ inl old
            | inr new ↦ inr (tagged_from threshold table body s.tables found t e new)
          ],
        )

    -- A scan request fails and changes nothing, or returns; then every tag stood before, or is an
    -- automatic tag for a column whose name a term of the glossary matches at the threshold, with no
    -- guard for such a match against it, and it has the classification of that term and the score of
    -- the match.
    pub post_scan-IsFromGlossary :
        (threshold : ℕ) (table : Option Text) (body : ScanRequest) (s : Service)
        → let (r, s') = post_scan columns_of suffix names_of threshold table body s in
          ((r ≡ err unavailable) × (s' ≡ s))
          ⊎ ((results : List ScanTableResult) × (r ≡ ok results)
              × ((t : ColumnTag)
                  → In t s'.tables.tags
                  → In t s.tables.tags ⊎ IsFromGlossary threshold s.tables t))
    unfolding post_scan
    post_scan-IsFromGlossary threshold table body s =
        after_matches threshold table body s
          (tables_matches columns_of suffix names_of body.stardata_database table
            (load_term_specs s.tables) threshold)
          refl
