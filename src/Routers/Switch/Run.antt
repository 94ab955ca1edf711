-- ===== src/Routers/Switch/Run.antt =====
-- What a run of the two handlers does, from the row on (routers/governance_switch.py).
use stardatadblabs.Base.{
  ℕ, ==_iff, ◌≡◌, refl, ◌∙◌, inl, inr, Text, text_eq, text_eq_refl, text_eq_iff, Bool, true, false,
  not, Option, none, some, find-some, find-append, find-update, ◌==◌, if◌then◌else◌, Option-cases,
}
use stardatadblabs.Catalog.Rows.{GovernanceDatabase, Tables}
use stardatadblabs.Catalog.Session.{
  ok, err, http, Service, Action, ◌>>=◌, ◌>>◌, pure, raise_if, or_raise, write, db_session,
  cache_invalidate_prefix, policy_cache_prefix,
}
use stardatadblabs.Catalog.Cache
use stardatadblabs.Masking.Route.{is_governance_enabled}
use stardatadblabs.Routers.Switch.{
  DisableRequest, switch_of, new_switch, add_switch, save_switch, found_or_add, disabled, enabled,
  get_or_create, disable_governance, enable_governance,
}

abbrev pub found_row : Option GovernanceDatabase → GovernanceDatabase → GovernanceDatabase
found_row none new = new
found_row (some g) new = g

abbrev pub with_found : Option GovernanceDatabase → GovernanceDatabase → Tables → Tables
with_found none new db = add_switch new db
with_found (some g) new db = db

-- The row that a handler works on, and the tables in which it stands.
abbrev pub row_of : Text → Tables → GovernanceDatabase
row_of database db = found_row (switch_of database db) (new_switch db.next_id database)

abbrev pub with_row : Text → Tables → Tables
with_row database db = with_found (switch_of database db) (new_switch db.next_id database) db

pub row_enabled :
    (database : Text) (db : Tables)
    → (row_of database db).governance_enabled ≡ is_governance_enabled database db
unfolding is_governance_enabled
row_enabled database db = elim (Option-cases (switch_of database db)) [
  | inl e ↦ rw (is_governance_enabled, row_of, e) refl
  | inr (g, e) ↦ rw (is_governance_enabled, row_of, e) refl
]

pub row_database :
    (database : Text) (db : Tables) → (row_of database db).stardata_database ≡ database
row_database database db = elim (Option-cases (switch_of database db)) [
  | inl e ↦ rw (e, row_of) refl
  | inr (g, e) ↦
      rw (e, row_of)
        ((text_eq_iff g.stardata_database database).0
          (find-some (λ x. text_eq x.stardata_database database) db.switches g e).1)
]

row_found :
    (database : Text) (db : Tables)
    → switch_of database (with_row database db) ≡ some (row_of database db)
row_found database db = elim (Option-cases (switch_of database db)) [
  | inl e ↦
      rw (e, with_row, row_of)
        (find-append (λ g. text_eq g.stardata_database database) db.switches
          (new_switch db.next_id database) e (text_eq_refl database))
  | inr (g, e) ↦ rw (e, with_row, row_of) e
]

-- The row that a handler saves is the row of the database from then on.
pub save_found :
    (database : Text) (row : GovernanceDatabase) (db : Tables)
    → (row_of database db).id ≡ row.id
    → row.stardata_database ≡ database
    → switch_of database (save_switch row (with_row database db)) ≡ some row
save_found database row db same named =
    find-update (λ g. text_eq g.stardata_database database) (λ g. g.id == row.id)
      (with_row database db).switches (row_of database db) row
      ((==_iff (row_of database db).id row.id).1 same) (row_found database db)
      (rw named (text_eq_refl database))

pub enabled_of :
    (database : Text) (db : Tables) (row : GovernanceDatabase)
    → switch_of database db ≡ some row
    → is_governance_enabled database db ≡ row.governance_enabled
unfolding is_governance_enabled
enabled_of database db row e = rw (is_governance_enabled, e) refl

abbrev pub saved : GovernanceDatabase → Text → Service → Service
saved row database s = record {
  tables = save_switch row (with_row database s.tables);
  cache = Cache.clear_prefix policy_cache_prefix s.cache;
}

-- The end of both handlers, from their guard on.
guarded : Bool → GovernanceDatabase → Action GovernanceDatabase
unfolding cache_invalidate_prefix
guarded stop row = do
  _ ← raise_if stop (http 409)
  _ ← write (save_switch row)
  _ ← cache_invalidate_prefix policy_cache_prefix
  pure row

run_guarded :
    (stop : Bool) (o : Option GovernanceDatabase) (new row : GovernanceDatabase) (s : Service)
    → db_session (found_or_add o new >> guarded stop row) s ≡ (
        if stop then (err (http 409), s) else (
          ok row,
          record {
            tables = save_switch row (with_found o new s.tables);
            cache = Cache.clear_prefix policy_cache_prefix s.cache;
          },
        ))
unfolding db_session guarded cache_invalidate_prefix
run_guarded true none new row s = refl
run_guarded true (some g) new row s = refl
run_guarded false none new row s = refl
run_guarded false (some g) new row s = refl

disable_found :
    (body : DisableRequest) (now : ℕ) (o : Option GovernanceDatabase) (new : GovernanceDatabase)
    (s : Service)
    → db_session
        (found_or_add o new >>= λ row. guarded (not row.governance_enabled) (disabled body now row))
        s
      ≡ db_session
          (found_or_add o new
            >> guarded
                (not (found_row o new).governance_enabled)
                (disabled body now (found_row o new)))
          s
unfolding db_session
disable_found body now none new s = refl
disable_found body now (some g) new s = refl

enable_found :
    (now : ℕ) (o : Option GovernanceDatabase) (new : GovernanceDatabase) (s : Service)
    → db_session (found_or_add o new >>= λ row. guarded row.governance_enabled (enabled now row)) s
      ≡ db_session
          (found_or_add o new
            >> guarded (found_row o new).governance_enabled (enabled now (found_row o new)))
          s
unfolding db_session
enable_found now none new s = refl
enable_found now (some g) new s = refl

pub disable_run :
    (database : Text) (body : DisableRequest) (now : ℕ) (s : Service)
    → disable_governance database body now s ≡ (
        if not (row_of database s.tables).governance_enabled then (err (http 409), s) else (
          ok (disabled body now (row_of database s.tables)),
          saved (disabled body now (row_of database s.tables)) database s,
        ))
unfolding disable_governance get_or_create db_session cache_invalidate_prefix guarded
disable_run database body now s =
    let row = row_of database s.tables in
    let new = new_switch s.tables.next_id database in
    disable_found body now (switch_of database s.tables) new s
    ∙ run_guarded (not row.governance_enabled) (switch_of database s.tables) new
        (disabled body now row) s

pub enable_run :
    (database : Text) (now : ℕ) (s : Service)
    → enable_governance database now s ≡ (
        if (row_of database s.tables).governance_enabled then (err (http 409), s) else (
          ok (enabled now (row_of database s.tables)),
          saved (enabled now (row_of database s.tables)) database s,
        ))
unfolding enable_governance get_or_create db_session cache_invalidate_prefix guarded
enable_run database now s =
    let row = row_of database s.tables in
    let new = new_switch s.tables.next_id database in
    enable_found now (switch_of database s.tables) new s
    ∙ run_guarded row.governance_enabled (switch_of database s.tables) new (enabled now row) s

pub unregistered :
    (o : Option GovernanceDatabase) (s : Service)
    → o ≡ none
    → db_session (or_raise o (http 404)) s ≡ (err (http 404), s)
unfolding db_session
unregistered none s e = refl
unregistered (some g) s e = cc
