-- ===== src/Routers/Columns/Scan.antt =====
-- The scan that tags the columns of a database from the classifier's matches (routers/columns.py,
-- `scan_columns`). The matches of each table are an argument, as the classifier returns them; a
-- score is stored in hundredths.
pub mod Writes
pub mod Manual
pub mod Tagged
use stardatadblabs.Base.{
  ℕ, Text, Bool, true, false, not, Option, none, some, List, [], ◌∷◌, ◌+◌, suc, length,
  if◌then◌else◌,
}
use stardatadblabs.Catalog.Rows.{ColumnTag, Tables}
use stardatadblabs.Catalog.Session.{
  Error, ok, err, Action, ◌>>=◌, ◌>>◌, pure, query, write, db_session, cache_invalidate_prefix,
  column_tag_prefix,
}
use stardatadblabs.Classifier.Terms.{Confidence, Signal, ColumnMatch}
use stardatadblabs.Classifier.Classify.{is_medium}
use stardatadblabs.Routers.Columns.{tag_at, add_tag, save_tag}

pub record ScanRequest : Type 0 where
  pub stardata_database : Text
  pub dry_run : Bool
  pub overwrite_existing : Bool

-- `action` of a result.
pub data ScanAction : Type 0 where
  rejected skipped dry_run tagged tagged_conservative : ScanAction

-- A result carries the match that it reports.
pub record ScanColumnResult : Type 0 where
  pub column : ColumnMatch
  pub use_conservative_policy : Bool
  pub action : ScanAction

pub record ScanTableResult : Type 0 where
  pub stardata_table : Text
  pub columns_scanned : ℕ
  pub columns_tagged : ℕ
  pub results : List ScanColumnResult

abbrev pub is_reject : Confidence → Bool
is_reject Confidence.reject = true
is_reject Confidence.high = false
is_reject Confidence.medium = false
is_reject Confidence.low = false

abbrev pub is_low : Confidence → Bool
is_low Confidence.low = true
is_low Confidence.high = false
is_low Confidence.medium = false
is_low Confidence.reject = false

-- `tag_term_id`: a MEDIUM match is not linked to its term.
abbrev pub tag_term_id : ColumnMatch → Option ℕ
tag_term_id m = if is_medium m.confidence then none else m.term_id

-- `action_label`
abbrev pub action_label : ColumnMatch → ScanAction
action_label m = if is_medium m.confidence then tagged_conservative else tagged

abbrev pub auto_tag : ℕ → Text → Text → ColumnMatch → ColumnTag
auto_tag id database table m = record {
  id = id;
  stardata_database = database;
  stardata_table = table;
  column_name = m.column_name;
  glossary_term_id = tag_term_id m;
  classification_id = m.classification_id;
  auto_detected = true;
  detection_score = some m.score;
  override_reason = none;
}

abbrev pub rescored : ColumnMatch → ColumnTag → ColumnTag
rescored m t = record t {
  glossary_term_id = tag_term_id m;
  classification_id = m.classification_id;
  detection_score = some m.score;
}

-- The body of the session: what is done with the tag that stands, or the lack of one.
unfoldable pub persist_tag :
    ScanRequest → Text → ColumnMatch → Option ColumnTag → ℕ → Action ScanAction
persist_tag body table m none id =
    write (add_tag (auto_tag id body.stardata_database table m)) >> pure (action_label m)
persist_tag body table m (some t) id =
    if not t.auto_detected
    then pure skipped
    else if body.overwrite_existing
    then write (save_tag (rescored m t)) >> pure (action_label m)
    else pure skipped

abbrev pub is_skipped : ScanAction → Bool
is_skipped skipped = true
is_skipped rejected = false
is_skipped dry_run = false
is_skipped tagged = false
is_skipped tagged_conservative = false

-- The match that gets a tag: its session, and the cache after it.
unfoldable pub tag_column : ScanRequest → Text → ColumnMatch → Action ScanAction
unfolding db_session persist_tag
tag_column body table m = do
  action ← db_session (do
    existing ← query (tag_at body.stardata_database table m.column_name)
    id ← query (λ db. db.next_id)
    persist_tag body table m existing id)
  _ ← if is_skipped action then pure tt else cache_invalidate_prefix column_tag_prefix
  pure action

-- `m.term_id is None`
abbrev pub has_no_term : ColumnMatch → Bool
has_no_term m = elim m.term_id [ none ↦ true | some k ↦ false ]

-- One round of the loop over the matches.
unfoldable pub scan_column : ScanRequest → Text → ColumnMatch → Action ScanAction
unfolding tag_column
scan_column body table m =
    if is_reject m.confidence
    then pure rejected
    else if is_low m.confidence
    then pure skipped
    else if has_no_term m
    then pure skipped
    else if body.dry_run
    then pure dry_run
    else tag_column body table m

abbrev pub is_tagging : ScanAction → Bool
is_tagging tagged = true
is_tagging tagged_conservative = true
is_tagging skipped = false
is_tagging rejected = false
is_tagging dry_run = false

-- `use_conservative_policy` of the result.
abbrev pub conservative : ColumnMatch → Bool
conservative m =
    if is_reject m.confidence
    then false
    else if is_low m.confidence
    then false
    else if has_no_term m
    then false
    else m.use_conservative_policy

-- The count of tagged columns and the results, with those of one more match.
abbrev pub found_with :
    ColumnMatch → ScanAction → ℕ × List ScanColumnResult → ℕ × List ScanColumnResult
found_with m action (n, rs) = (
  (if is_tagging action then suc n else n),
  record { column = m; use_conservative_policy = conservative m; action = action } ∷ rs,
)

abbrev pub table_result : Text → List ColumnMatch → ℕ × List ScanColumnResult → ScanTableResult
table_result table matches (n, rs) = record {
  stardata_table = table;
  columns_scanned = length matches;
  columns_tagged = n;
  results = rs;
}

-- The loop over the matches of a table.
unfoldable pub scan_matches :
    ScanRequest → Text → List ColumnMatch → Action (ℕ × List ScanColumnResult)
unfolding scan_column
scan_matches body table [] = pure (0, [])
scan_matches body table (m ∷ ms) = do
  action ← scan_column body table m
  rest ← scan_matches body table ms
  pure (found_with m action rest)

-- The loop over the tables.
unfoldable pub scan_columns :
    ScanRequest → List (Text × List ColumnMatch) → Action (List ScanTableResult)
unfolding scan_matches
scan_columns body [] = pure []
scan_columns body ((table, matches) ∷ rest) = do
  found ← scan_matches body table matches
  tables ← scan_columns body rest
  pure (table_result table matches found ∷ tables)
