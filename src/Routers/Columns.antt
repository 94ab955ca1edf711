-- ===== src/Routers/Columns.antt =====
-- Column tags: getting, creating and deleting one (routers/columns.py). The scan is in the child
-- modules: Scan stores the tags of the matches, Request is the whole request.
pub mod Scan
pub mod Edit
pub mod Request
use stardatadblabs.Base.{
  ℕ, Text, text_eq, Bool, true, false, not, ◌&&◌, Option, none, some, List, [], ◌∷◌, ◌++◌, ◌+◌,
  find, keep, update, ◌==◌, if◌then◌else◌,
}
use stardatadblabs.Catalog.Rows.{ColumnTag, Tables, has_references}
use stardatadblabs.Catalog.Session.{
  Error, http, Action, ◌>>=◌, ◌>>◌, pure, raise, raise_if, integrity, query, or_raise, write,
  db_session, cache_invalidate_prefix, column_tag_prefix,
}
use stardatadblabs.Classifier.Terms.{Confidence, ColumnMatch}

pub record ColumnTagCreate : Type 0 where
  pub stardata_database : Text
  pub stardata_table : Text
  pub column_name : Text
  pub glossary_term_id : Option ℕ
  pub classification_id : Option ℕ
  pub override_reason : Option Text

abbrev pub is_tag_at : Text → Text → Text → ColumnTag → Bool
is_tag_at database table column t =
    text_eq t.stardata_database database
    && (text_eq t.stardata_table table && text_eq t.column_name column)

-- `select(ColumnTag).where(…)`; the three columns are unique together.
abbrev pub tag_at : Text → Text → Text → Tables → Option ColumnTag
tag_at database table column db = find (is_tag_at database table column) db.tags

abbrev pub add_tag : ColumnTag → Tables → Tables
add_tag t db = record db { tags = db.tags ++ (t ∷ []); next_id = db.next_id + 1 }

abbrev pub save_tag : ColumnTag → Tables → Tables
save_tag t db = record db { tags = update (λ x. x.id == t.id) (λ x. t) db.tags }

unfoldable pub get_column_tag : Text → Text → Text → Action ColumnTag
unfolding db_session
get_column_tag database table column =
    db_session (do found ← query (tag_at database table column); or_raise found (http 404))

-- An automatic tag that a request makes manual.
abbrev pub promoted : ColumnTagCreate → ColumnTag → ColumnTag
promoted body t = record t {
  glossary_term_id = body.glossary_term_id;
  classification_id = body.classification_id;
  auto_detected = false;
  override_reason = body.override_reason;
}

abbrev pub manual_tag : ℕ → ColumnTagCreate → ColumnTag
manual_tag id body = record {
  id = id;
  stardata_database = body.stardata_database;
  stardata_table = body.stardata_table;
  column_name = body.column_name;
  glossary_term_id = body.glossary_term_id;
  classification_id = body.classification_id;
  auto_detected = false;
  detection_score = none;
  override_reason = body.override_reason;
}

-- The flush of a tag, where the database checks the foreign keys, and the write that it makes.
abbrev pub flush : Bool → (Tables → Tables) → ColumnTag → Action ColumnTag
flush refs change t = raise_if (not refs) integrity >> write change >> pure t

-- What becomes of the tag that stands, or of the lack of one. `refs` says whether the request's term
-- and classification exist.
unfoldable pub put_tag : ColumnTagCreate → Bool → Option ColumnTag → ℕ → Action ColumnTag
put_tag body refs none id = flush refs (add_tag (manual_tag id body)) (manual_tag id body)
put_tag body refs (some t) id =
    if t.auto_detected
    then flush refs (save_tag (promoted body t)) (promoted body t)
    else raise (http 409)

abbrev pub references : ColumnTagCreate → Tables → Bool
references body db = has_references body.classification_id body.glossary_term_id db

unfoldable pub create_column_tag : ColumnTagCreate → Action ColumnTag
unfolding db_session put_tag has_references
create_column_tag body = db_session (do
  existing ← query (tag_at body.stardata_database body.stardata_table body.column_name)
  id ← query (λ db. db.next_id)
  refs ← query (references body)
  tag ← put_tag body refs existing id
  _ ← cache_invalidate_prefix column_tag_prefix
  pure tag)

-- `session.delete(tag)`
abbrev pub remove_tag : ColumnTag → Tables → Tables
remove_tag t db = record db { tags = keep (λ x. not (x.id == t.id)) db.tags }

unfoldable pub delete_column_tag : Text → Text → Text → Action (Unit {0})
unfolding db_session
delete_column_tag database table column = db_session (do
  found ← query (tag_at database table column)
  tag ← or_raise found (http 404)
  _ ← write (remove_tag tag)
  cache_invalidate_prefix column_tag_prefix)
