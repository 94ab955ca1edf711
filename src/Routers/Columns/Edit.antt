-- ===== src/Routers/Columns/Edit.antt =====
-- Creating and deleting a column tag (routers/columns.py).
use stardatadblabs.Base.{
  ℕ, ◌≡◌, refl, sym, ap, ◌∙◌, ◌⊎◌, inl, inr, ◌<◌, Text, text_eq, text_eq_refl, Bool, true, false,
  not, ◌&&◌, Option, none, some, List, [], ◌∷◌, ◌++◌, In, find-some, find-append, find-update, keep,
  ==_iff, ◌==◌, arith, if◌then◌else◌,
}
use mathlib.Core.Path.{subst}
use stardatadblabs.Catalog.Rows.{ColumnTag, Tables}
use stardatadblabs.Catalog.Cache
use stardatadblabs.Catalog.Session.{
  Result, ok, err, http, integrity, Service, Action, ◌>>=◌, pure, raise, or_raise, write,
  db_session, cache_invalidate_prefix, column_tag_prefix,
}
use stardatadblabs.Routers.Columns.{
  ColumnTagCreate, tag_at, is_tag_at, add_tag, save_tag, remove_tag, promoted, manual_tag, flush,
  put_tag, references, create_column_tag, delete_column_tag,
}
use stardatadblabs.Routers.Columns.Scan.Manual.{HasTagIds}

abbrev place_free : ColumnTagCreate → Tables → Option ColumnTag
place_free body db = tag_at body.stardata_database body.stardata_table body.column_name db

at_refl : (d t c : Text) → text_eq d d && (text_eq t t && text_eq c c) ≡ true
at_refl d t c = rw (text_eq_refl d, text_eq_refl t, text_eq_refl c) refl

abbrev with_tables : Tables → Service → Service
with_tables db s = record { tables = db; cache = Cache.clear_prefix column_tag_prefix s.cache }

-- What the handler does, from the tag that stands on.
created :
    (body : ColumnTagCreate) (refs : Bool) (o : Option ColumnTag) (s : Service)
    → Result ColumnTag × Service
created body refs none s =
    if refs
    then (
      ok (manual_tag s.tables.next_id body),
      with_tables (add_tag (manual_tag s.tables.next_id body) s.tables) s,
    )
    else (err integrity, s)
created body refs (some t) s =
    if t.auto_detected
    then (if refs
        then (ok (promoted body t), with_tables (save_tag (promoted body t) s.tables) s)
        else (err integrity, s))
    else (err (http 409), s)

put_session :
    (body : ColumnTagCreate) (refs : Bool) (o : Option ColumnTag) (id : ℕ) → Action ColumnTag
unfolding db_session cache_invalidate_prefix
put_session body refs o id =
    db_session
      (do tag ← put_tag body refs o id; _ ← cache_invalidate_prefix column_tag_prefix; pure tag)

put_session-promote :
    (auto refs : Bool) (body : ColumnTagCreate) (t : ColumnTag) (s : Service)
    → db_session
        (do
          tag ←
              if auto
              then flush refs (save_tag (promoted body t)) (promoted body t)
              else raise (http 409)
          _ ← cache_invalidate_prefix column_tag_prefix
          pure tag)
        s
      ≡ (if auto
          then (if refs
              then (ok (promoted body t), with_tables (save_tag (promoted body t) s.tables) s)
              else (err integrity, s))
          else (err (http 409), s))
unfolding db_session cache_invalidate_prefix
put_session-promote true true body t s = refl
put_session-promote true false body t s = refl
put_session-promote false refs body t s = refl

put_session-created :
    (body : ColumnTagCreate) (refs : Bool) (o : Option ColumnTag) (s : Service)
    → put_session body refs o s.tables.next_id s ≡ created body refs o s
unfolding put_session created put_tag db_session cache_invalidate_prefix
put_session-created body true none s = refl
put_session-created body false none s = refl
put_session-created body refs (some t) s = put_session-promote t.auto_detected refs body t s

create_run :
    (body : ColumnTagCreate) (s : Service)
    → create_column_tag body s
      ≡ created body (references body s.tables) (place_free body s.tables) s
unfolding create_column_tag put_session db_session cache_invalidate_prefix
create_run body s = put_session-created body (references body s.tables) (place_free body s.tables) s

-- The tag that stands on the request's column afterwards, or the one that keeps it from being made.
abbrev pub IsCreated : ColumnTagCreate → Service → Result ColumnTag × Service → Type 0
IsCreated body s (r, s') =
    ((t : ColumnTag) × (r ≡ ok t)
      × (tag_at body.stardata_database body.stardata_table body.column_name s'.tables ≡ some t)
      × (t.auto_detected ≡ false)
      × (t.glossary_term_id ≡ body.glossary_term_id)
      × (t.classification_id ≡ body.classification_id)
      × (t.override_reason ≡ body.override_reason))
    ⊎ ((t : ColumnTag) × (tag_at body.stardata_database body.stardata_table body.column_name
            s.tables
          ≡ some t)
        × (t.auto_detected ≡ false)
        × (r ≡ err (http 409))
        × (s' ≡ s))
    ⊎ ((references body s.tables ≡ false) × (r ≡ err integrity) × (s' ≡ s))

promote-IsCreated :
    (auto refs : Bool) (body : ColumnTagCreate) (t : ColumnTag) (s : Service)
    → references body s.tables ≡ refs
    → t.auto_detected ≡ auto
    → place_free body s.tables ≡ some t
    → IsCreated body s (
        if auto
        then (if refs
            then (ok (promoted body t), with_tables (save_tag (promoted body t) s.tables) s)
            else (err integrity, s))
        else (err (http 409), s))
promote-IsCreated false refs body t s q manual e = inr (inl (t, e, manual, refl, refl))
promote-IsCreated true false body t s q auto e = inr (inr (q, refl, refl))
promote-IsCreated true true body t s q auto e =
    let p = is_tag_at body.stardata_database body.stardata_table body.column_name in
    let (_, here) = find-some p s.tables.tags t e in
    inl (
      promoted body t,
      refl,
      find-update p (λ x. x.id == t.id) s.tables.tags t (promoted body t)
          ((==_iff t.id t.id).1 refl) e here,
      refl,
      refl,
      refl,
      refl,
    )

created-IsCreated :
    (body : ColumnTagCreate) (refs : Bool) (o : Option ColumnTag) (s : Service)
    → references body s.tables ≡ refs
    → place_free body s.tables ≡ o
    → IsCreated body s (created body refs o s)
unfolding created
created-IsCreated body false none s q e = inr (inr (q, refl, refl))
created-IsCreated body true none s q e =
    let t = manual_tag s.tables.next_id body in
    inl (
      t,
      refl,
      find-append (is_tag_at body.stardata_database body.stardata_table body.column_name)
          s.tables.tags t e (at_refl body.stardata_database body.stardata_table body.column_name),
      refl,
      refl,
      refl,
      refl,
    )
created-IsCreated body refs (some t) s q e =
    promote-IsCreated t.auto_detected refs body t s q refl e

-- Creating a tag is refused with 409 where a manual tag stands, and with an integrity error where
-- the request's term or classification does not exist; it changes nothing then. Otherwise the tag that is returned stands on the column: a manual one with the request's term,
-- classification and reason.
pub create_column_tag-IsCreated :
    (body : ColumnTagCreate) (s : Service) → IsCreated body s (create_column_tag body s)
create_column_tag-IsCreated body s =
    subst (IsCreated body s) (sym (create_run body s))
      (created-IsCreated body (references body s.tables) (place_free body s.tables) s refl refl)

deleted : Option ColumnTag → Service → Result (Unit {0}) × Service
deleted none s = (err (http 404), s)
deleted (some t) s = (ok tt, with_tables (remove_tag t s.tables) s)

delete_found :
    (o : Option ColumnTag) (s : Service)
    → db_session
        (do
          tag ← or_raise o (http 404)
          _ ← write (remove_tag tag)
          cache_invalidate_prefix column_tag_prefix)
        s
      ≡ deleted o s
unfolding deleted db_session cache_invalidate_prefix
delete_found none s = refl
delete_found (some t) s = refl

delete_run :
    (database table column : Text) (s : Service)
    → delete_column_tag database table column s ≡ deleted (tag_at database table column s.tables) s
unfolding delete_column_tag db_session cache_invalidate_prefix
delete_run database table column s = delete_found (tag_at database table column s.tables) s

other : (a b : ℕ) → a < b → (a == b) ≡ false
other a b h = ground arith

keep_others :
    (t : ColumnTag) (tags : List ColumnTag)
    → ((a : ColumnTag) → In a tags → a.id < t.id)
    → keep (λ x. not (x.id == t.id)) (tags ++ (t ∷ [])) ≡ tags
keep_others t [] below = rw ((==_iff t.id t.id).1 refl) refl
keep_others t (a ∷ rest) below =
    let differs = other a.id t.id (below a (inl refl)) in
    rw differs (ap (λ ts. a ∷ ts) (keep_others t rest (λ b i. below b (inr i))))

-- A tag that is created on a column without one, for a term and a classification that exist, and then
-- deleted leaves the tags as they were: both handlers succeed.
pub create-delete_column_tag :
    (body : ColumnTagCreate) (s : Service)
    → HasTagIds s.tables
    → tag_at body.stardata_database body.stardata_table body.column_name s.tables ≡ none
    → references body s.tables ≡ true
    → let (r, s') = create_column_tag body s in
      let (r', s'') =
        delete_column_tag body.stardata_database body.stardata_table body.column_name s' in
      ((t : ColumnTag) × (r ≡ ok t)) × (r' ≡ ok tt) × (s''.tables.tags ≡ s.tables.tags)
unfolding created deleted
create-delete_column_tag body s (one, below) free refs =
    let t = manual_tag s.tables.next_id body in
    let s1 = with_tables (add_tag t s.tables) s in
    let found =
      find-append (is_tag_at body.stardata_database body.stardata_table body.column_name)
        s.tables.tags t free
        (at_refl body.stardata_database body.stardata_table body.column_name) in
    let run =
      create_run body s
      ∙ ap (λ o. created body (references body s.tables) o s) free
      ∙ ap (λ b. created body b none s) refs in
    let run' =
      delete_run body.stardata_database body.stardata_table body.column_name s1
      ∙ ap (λ o. deleted o s1) found in
    rw (run, run') ((t, refl), refl, keep_others t s.tables.tags below)
