-- ===== src/Routers/Columns/Scan/Writes.antt =====
-- The writes of a scan, and the induction on a scan that follows from them (routers/columns.py,
-- `scan_columns`).
use stardatadblabs.Base.{
  ℕ, ◌≡◌, refl, sym, ◌∙◌, ◌⊎◌, inl, inr, Text, Bool, true, false, not, Option, none, some, List, [],
  ◌∷◌, In, if◌then◌else◌,
}
use stardatadblabs.Catalog.Rows.{ColumnTag, Tables}
use mathlib.Core.Path.{subst}
use stardatadblabs.Catalog.Session.{
  Result, ok, Service, Action, ◌>>=◌, ◌>>◌, bind-ok, pure, write, db_session,
  cache_invalidate_prefix, column_tag_prefix,
}
use stardatadblabs.Classifier.Terms.{ColumnMatch}
use stardatadblabs.Routers.Columns.{tag_at, add_tag, save_tag}
use stardatadblabs.Routers.Columns.Scan.{
  ScanRequest, ScanAction, ScanColumnResult, ScanTableResult, rejected, skipped, dry_run, tagged,
  tagged_conservative, is_skipped, is_reject, is_low, has_no_term, auto_tag, rescored, found_with,
  table_result, persist_tag, tag_column, scan_column, scan_matches, scan_columns, action_label,
}

-- A match that may be tagged: its confidence is HIGH or MEDIUM, it has a term, and the scan is not a
-- dry run.
abbrev pub IsTaggable : ScanRequest → ColumnMatch → Type 0
IsTaggable body m =
    (is_reject m.confidence ≡ false)
    × (is_low m.confidence ≡ false)
    × (has_no_term m ≡ false)
    × (body.dry_run ≡ false)

-- A new automatic tag, or an automatic tag written over where that is asked for.
abbrev pub IsWrite : ScanRequest → Text → ColumnMatch → Tables → Tables → Type 0
IsWrite body table m db db' =
    ((tag_at body.stardata_database table m.column_name db ≡ none)
      × (db' ≡ add_tag (auto_tag db.next_id body.stardata_database table m) db))
    ⊎ ((t : ColumnTag) × (tag_at body.stardata_database table m.column_name db ≡ some t)
        × (t.auto_detected ≡ true)
        × (body.overwrite_existing ≡ true)
        × (db' ≡ save_tag (rescored m t) db))

-- What a round of the loop does to the tables.
abbrev pub IsRound : ScanRequest → Text → ColumnMatch → Tables → Tables → Type 0
IsRound body table m db db' = (db' ≡ db) ⊎ (IsTaggable body m × IsWrite body table m db db')

-- A property of both branches, each under its condition.
branches :
    (P : Action ScanAction → Type 0) (b : Bool) (x y : Action ScanAction)
    → (b ≡ true → P x)
    → (b ≡ false → P y)
    → P (if b then x else y)
branches P true x y f g = f refl
branches P false x y f g = g refl

-- The action returns, and leaves the tables as they are or writes the match's tag.
abbrev MayWrite : ScanRequest → Text → ColumnMatch → Service → Action ScanAction → Type 0
MayWrite body table m s act =
    let (r, s') = act s in
    (a : ScanAction) × (r ≡ ok a)
    × ((s'.tables ≡ s.tables) ⊎ IsWrite body table m s.tables s'.tables)

not-false : (b : Bool) → not b ≡ false → b ≡ true
not-false true e = refl
not-false false e = cc

persist_tag-cases :
    (body : ScanRequest) (table : Text) (m : ColumnMatch) (o : Option ColumnTag) (s : Service)
    → tag_at body.stardata_database table m.column_name s.tables ≡ o
    → MayWrite body table m s (persist_tag body table m o s.tables.next_id)
unfolding persist_tag
persist_tag-cases body table m none s e = (action_label m, refl, inr (inl (e, refl)))
persist_tag-cases body table m (some t) s e =
    branches (MayWrite body table m s) (not t.auto_detected) (pure skipped)
      (if body.overwrite_existing
        then write (save_tag (rescored m t)) >> pure (action_label m)
        else pure skipped)
      (λ manual. (skipped, refl, inl refl))
      (λ auto.
        branches (MayWrite body table m s) body.overwrite_existing
          (write (save_tag (rescored m t)) >> pure (action_label m)) (pure skipped)
          (λ over.
            (action_label m, refl, inr (inr (t, e, not-false t.auto_detected auto, over, refl))))
          (λ keeps. (skipped, refl, inl refl)))

-- What follows the session of a match, from the session's outcome on.
after_session : Result ScanAction × Service → Action ScanAction
unfolding db_session cache_invalidate_prefix
after_session p = do
  action ← db_session (λ s. p)
  _ ← if is_skipped action then pure tt else cache_invalidate_prefix column_tag_prefix
  pure action

after_session-ok :
    (a : ScanAction) (s1 s : Service)
    → let (r, s') = after_session (ok a, s1) s in (r ≡ ok a) × (s'.tables ≡ s1.tables)
unfolding after_session db_session cache_invalidate_prefix
after_session-ok skipped s1 s = (refl, refl)
after_session-ok rejected s1 s = (refl, refl)
after_session-ok dry_run s1 s = (refl, refl)
after_session-ok tagged s1 s = (refl, refl)
after_session-ok tagged_conservative s1 s = (refl, refl)

tag_column-cases :
    (body : ScanRequest) (table : Text) (m : ColumnMatch) (s : Service)
    → let (r, s') = tag_column body table m s in
      (a : ScanAction) × (r ≡ ok a)
      × ((s'.tables ≡ s.tables) ⊎ IsWrite body table m s.tables s'.tables)
unfolding tag_column after_session db_session cache_invalidate_prefix
tag_column-cases body table m s =
    let o = tag_at body.stardata_database table m.column_name s.tables in
    let s1 = (persist_tag body table m o s.tables.next_id s).1 in
    let (a, e, x) = persist_tag-cases body table m o s refl in
    let (e', same) = after_session-ok a s1 s in
    subst
      (λ q.
        let (r, s') = after_session (q, s1) s in
        (b : ScanAction) × (r ≡ ok b)
        × ((s'.tables ≡ s.tables) ⊎ IsWrite body table m s.tables s'.tables))
      (sym e)
      (
        a,
        e',
        elim x [
          | inl kept ↦ inl (same ∙ kept)
          | inr w ↦ inr (subst (IsWrite body table m s.tables) (sym same) w)
        ],
      )

abbrev Round : ScanRequest → Text → ColumnMatch → Service → Action ScanAction → Type 0
Round body table m s act =
    let (r, s') = act s in (a : ScanAction) × (r ≡ ok a) × IsRound body table m s.tables s'.tables

-- One round of the loop always returns, and does nothing but write the tag of a taggable match.
pub scan_column-cases :
    (body : ScanRequest) (table : Text) (m : ColumnMatch) (s : Service)
    → let (r, s') = scan_column body table m s in
      (a : ScanAction) × (r ≡ ok a) × IsRound body table m s.tables s'.tables
unfolding scan_column
scan_column-cases body table m s =
    let tag = tag_column body table m in
    branches (Round body table m s) (is_reject m.confidence) (pure rejected)
      (if is_low m.confidence
        then pure skipped
        else if has_no_term m
        then pure skipped
        else if body.dry_run
        then pure dry_run
        else tag)
      (λ a. (rejected, refl, inl refl))
      (λ a.
        branches (Round body table m s) (is_low m.confidence) (pure skipped)
          (if has_no_term m then pure skipped else if body.dry_run then pure dry_run else tag)
          (λ b. (skipped, refl, inl refl))
          (λ b.
            branches (Round body table m s) (has_no_term m) (pure skipped)
              (if body.dry_run then pure dry_run else tag) (λ c. (skipped, refl, inl refl))
              (λ c.
                branches (Round body table m s) body.dry_run (pure dry_run) tag
                  (λ d. (dry_run, refl, inl refl))
                  (λ d.
                    let (action, e, x) = tag_column-cases body table m s in
                    (action, e, elim x [ inl kept ↦ inl kept | inr w ↦ inr ((a, b, c, d), w) ])))))

-- A property of the tables holds after a scan if every round of it keeps the property.
module _ (body : ScanRequest) (P : Tables → Type 0) where
  -- Every round for one of the matches keeps `P`.
  abbrev KeepsMatches : Text → List ColumnMatch → Type 0
  KeepsMatches table ms =
      (m : ColumnMatch) → In m ms → (db db' : Tables) → IsRound body table m db db' → P db → P db'

  abbrev pub KeepsTables : List (Text × List ColumnMatch) → Type 0
  KeepsTables tables =
      (table : Text) (ms : List ColumnMatch) (m : ColumnMatch)
      → In (table, ms) tables
      → In m ms
      → (db db' : Tables) → IsRound body table m db db'
      → P db
      → P db'

  scan_matches-keeps :
      (table : Text) (ms : List ColumnMatch)
      → KeepsMatches table ms
      → (s : Service) → P s.tables
      → let (r, s') = scan_matches body table ms s in
        (found : ℕ × List ScanColumnResult) × (r ≡ ok found) × P s'.tables
  unfolding scan_matches
  scan_matches-keeps table [] k s p = ((0, []), refl, p)
  scan_matches-keeps table (m ∷ ms) k s p =
      let s1 = (scan_column body table m s).1 in
      let (a, e, x) = scan_column-cases body table m s in
      let (rest, e', p') =
        scan_matches-keeps table ms (λ m' i. k m' (inr i)) s1
          (k m (inl refl) s.tables s1.tables x p) in
      subst (λ q. (f : ℕ × List ScanColumnResult) × (q.0 ≡ ok f) × P q.1.tables)
        (sym (
          bind-ok (scan_column body table m)
            (λ b. scan_matches body table ms >>= λ r. pure (found_with m b r)) s a e
          ∙ bind-ok (scan_matches body table ms) (λ r. pure (found_with m a r)) s1 rest e'))
        (found_with m a rest, refl, p')

  pub scan_columns-keeps :
      (tables : List (Text × List ColumnMatch))
      → KeepsTables tables
      → (s : Service) → P s.tables
      → let (r, s') = scan_columns body tables s in
        (results : List ScanTableResult) × (r ≡ ok results) × P s'.tables
  unfolding scan_columns
  scan_columns-keeps [] k s p = ([], refl, p)
  scan_columns-keeps ((table, ms) ∷ rest) k s p =
      let s1 = (scan_matches body table ms s).1 in
      let (found, e, p1) = scan_matches-keeps table ms (λ m i. k table ms m (inl refl) i) s p in
      let (results, e', p2) = scan_columns-keeps rest (λ t ms' m i. k t ms' m (inr i)) s1 p1 in
      subst (λ q. (f : List ScanTableResult) × (q.0 ≡ ok f) × P q.1.tables)
        (sym (
          bind-ok (scan_matches body table ms)
            (λ f. scan_columns body rest >>= λ ts. pure (table_result table ms f ∷ ts)) s found e
          ∙ bind-ok (scan_columns body rest) (λ ts. pure (table_result table ms found ∷ ts)) s1
              results e'))
        (table_result table ms found ∷ results, refl, p2)
