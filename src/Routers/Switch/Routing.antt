-- ===== src/Routers/Switch/Routing.antt =====
-- What disabling and enabling a database does to the routing of its queries
-- (routers/governance_switch.py with masking.py).
use stardatadblabs.Base.{
  ℕ, ◌≡◌, refl, sym, ap, ◌∙◌, Text, true, false, Option, none, some, List, [], ◌∷◌, ◌++◌, ◌+◌,
  update, ◌==◌,
}
use stardatadblabs.Catalog.Rows.{ColumnTag, GovernanceDatabase, Tables}
use stardatadblabs.Catalog.Session.{ok, Service}
use stardatadblabs.Masking.Route.{
  base_table, is_governance_enabled, resolve_query_target, route, tags_of,
}
use stardatadblabs.Routers.Switch.{
  DisableRequest, switch_of, new_switch, save_switch, disabled, enabled, disable_governance,
  enable_governance,
}
use stardatadblabs.Routers.Switch.Run.{
  saved, with_found, row_of, row_enabled, row_database, save_found, enabled_of, disable_run,
  enable_run,
}

-- The tables with other rows for the switches.
abbrev reswitched : List GovernanceDatabase → ℕ → Tables → Tables
reswitched switches next_id db = record db { switches = switches; next_id = next_id }

save_switch-reswitched :
    (o : Option GovernanceDatabase) (new row : GovernanceDatabase) (db : Tables)
    → (switches : List GovernanceDatabase) × (n : ℕ) × (save_switch row (with_found o new db)
        ≡ reswitched switches n db)
save_switch-reswitched none new row db =
    (update (λ g. g.id == row.id) (λ g. row) (db.switches ++ (new ∷ [])), db.next_id + 1, refl)
save_switch-reswitched (some g) new row db =
    (update (λ g. g.id == row.id) (λ g. row) db.switches, db.next_id, refl)

route_kept :
    (database table view_name : Text) (roles : List Text) (tags : List ColumnTag)
    (switches : List GovernanceDatabase) (n : ℕ) (db : Tables)
    → route database table roles view_name tags (reswitched switches n db)
      ≡ route database table roles view_name tags db
unfolding route
route_kept database table view_name roles [] switches n db = refl
route_kept database table view_name roles (t ∷ ts) switches n db = refl

resolve_kept :
    (suffix database table : Text) (roles : List Text) (switches : List GovernanceDatabase) (n : ℕ)
    (db : Tables)
    → is_governance_enabled database (reswitched switches n db) ≡ is_governance_enabled database db
    → resolve_query_target suffix database table roles (reswitched switches n db)
      ≡ resolve_query_target suffix database table roles db
unfolding resolve_query_target
resolve_kept suffix database table roles switches n db e =
    rw
      (
        e,
        route_kept database table (table ++ suffix) roles (tags_of database table db) switches n db,
      )
      refl

resolve_disabled :
    (suffix database table : Text) (roles : List Text) (db : Tables)
    → is_governance_enabled database db ≡ false
    → (resolve_query_target suffix database table roles db).target ≡ base_table
unfolding resolve_query_target
resolve_disabled suffix database table roles db e = rw (resolve_query_target, e) refl

saved_enabled :
    (database : Text) (row : GovernanceDatabase) (s : Service)
    → (row_of database s.tables).id ≡ row.id
    → row.stardata_database ≡ database
    → is_governance_enabled database (saved row database s).tables ≡ row.governance_enabled
saved_enabled database row s same named =
    enabled_of database (saved row database s).tables row
      (save_found database row s.tables same named)

-- On a database whose governance is enabled, disabling succeeds and routes every user of every
-- table to the base table; enabling then succeeds and routes each query as before.
pub disable-enable_routing :
    (suffix database : Text) (body : DisableRequest) (now then_ : ℕ) (s : Service)
    → is_governance_enabled database s.tables ≡ true
    → let (r, s') = disable_governance database body now s in
      let (r', s'') = enable_governance database then_ s' in
      ((row : GovernanceDatabase) × (r ≡ ok row))
      × ((row : GovernanceDatabase) × (r' ≡ ok row))
      × ((table : Text) (roles : List Text)
          → ((resolve_query_target suffix database table roles s'.tables).target ≡ base_table)
            × (resolve_query_target suffix database table roles s''.tables
                ≡ resolve_query_target suffix database table roles s.tables))
disable-enable_routing suffix database body now then_ s on =
    let row = row_of database s.tables in
    let new = new_switch s.tables.next_id database in
    let row' = disabled body now row in
    let s1 = saved row' database s in
    let new' = new_switch s1.tables.next_id database in
    let row'' = enabled then_ (row_of database s1.tables) in
    let s2 = saved row'' database s1 in
    let off = saved_enabled database row' s refl (row_database database s.tables) in
    let on' = saved_enabled database row'' s1 refl (row_database database s1.tables) in
    let (switches, n, p) = save_switch-reswitched (switch_of database s.tables) new row' s.tables in
    let (switches', n', p') =
      save_switch-reswitched (switch_of database s1.tables) new' row'' s1.tables in
    let q = p' ∙ ap (reswitched switches' n') p in
    rw
      (
        disable_run database body now s,
        row_enabled database s.tables ∙ on,
        enable_run database then_ s1,
        row_enabled database s1.tables ∙ off,
      )
      (
        (row', refl),
        (row'', refl),
        λ table roles. (
          resolve_disabled suffix database table roles s1.tables off,
          ap (resolve_query_target suffix database table roles) q
              ∙ resolve_kept suffix database table roles switches' n' s.tables
                  (ap (is_governance_enabled database) (sym q) ∙ on' ∙ sym on),
        ),
      )
