-- ===== src/Routers/Switch/Cycle.antt =====
-- Disabling and enabling a database (routers/governance_switch.py).
use stardatadblabs.Base.{
  ℕ, ◌≡◌, refl, sym, ◌∙◌, ◌⊎◌, inl, inr, Text, true, false, none, some, Bool-cases,
}
use stardatadblabs.Catalog.Rows.{GovernanceDatabase}
use stardatadblabs.Catalog.Session.{ok, err, http, Service, db_session}
use stardatadblabs.Masking.Route.{is_governance_enabled}
use stardatadblabs.Routers.Switch.{
  DisableRequest, switch_of, disabled, enabled, get_switch, disable_governance, enable_governance,
}
use stardatadblabs.Routers.Switch.Run.{
  saved, row_of, row_enabled, row_database, save_found, enabled_of, disable_run, enable_run,
  unregistered,
}

-- Disabling succeeds exactly if governance is enabled, which holds for a database without a row. The
-- database is disabled from then on, with the reason and the person in its row. Otherwise the
-- answer is 409 and nothing changes.
pub disable_governance-cases :
    (database : Text) (body : DisableRequest) (now : ℕ) (s : Service)
    → let (r, s') = disable_governance database body now s in
      ((is_governance_enabled database s.tables ≡ true)
        × (row : GovernanceDatabase) × (r ≡ ok row)
        × (row.disabled_reason ≡ some body.reason)
        × (row.disabled_by ≡ some body.disabled_by)
        × (switch_of database s'.tables ≡ some row)
        × (is_governance_enabled database s'.tables ≡ false))
      ⊎ ((is_governance_enabled database s.tables ≡ false) × (r ≡ err (http 409)) × (s' ≡ s))
disable_governance-cases database body now s =
    let row = row_of database s.tables in
    elim (Bool-cases row.governance_enabled) [
      | inl on ↦
          let found =
            save_found database (disabled body now row) s.tables refl
              (row_database database s.tables) in
          rw (disable_run database body now s, on)
            (inl (
              sym (row_enabled database s.tables) ∙ on,
              disabled body now row,
              refl,
              refl,
              refl,
              found,
              enabled_of database (saved (disabled body now row) database s).tables
                  (disabled body now row) found,
            ))
      | inr off ↦
          rw (disable_run database body now s, off)
            (inr (sym (row_enabled database s.tables) ∙ off, refl, refl))
    ]

-- Enabling succeeds exactly if governance is disabled, and the row then no longer has a reason. The
-- database is enabled from then on. Otherwise the answer is 409 and nothing changes: in particular
-- a database that has no row still has none, and `get_switch` answers 404 as before.
pub enable_governance-cases :
    (database : Text) (now : ℕ) (s : Service)
    → let (r, s') = enable_governance database now s in
      ((is_governance_enabled database s.tables ≡ false)
        × (row : GovernanceDatabase) × (r ≡ ok row)
        × (row.disabled_reason ≡ none)
        × (switch_of database s'.tables ≡ some row)
        × (is_governance_enabled database s'.tables ≡ true))
      ⊎ ((is_governance_enabled database s.tables ≡ true) × (r ≡ err (http 409)) × (s' ≡ s))
enable_governance-cases database now s =
    let row = row_of database s.tables in
    elim (Bool-cases row.governance_enabled) [
      | inl on ↦
          rw (enable_run database now s, on)
            (inr (sym (row_enabled database s.tables) ∙ on, refl, refl))
      | inr off ↦
          let found =
            save_found database (enabled now row) s.tables refl (row_database database s.tables) in
          rw (enable_run database now s, off)
            (inl (
              sym (row_enabled database s.tables) ∙ off,
              enabled now row,
              refl,
              refl,
              found,
              enabled_of database (saved (enabled now row) database s).tables (enabled now row)
                  found,
            ))
    ]

-- A database without a row cannot be registered by enabling it: `get_switch` answers 404, enabling
-- answers 409 and leaves the tables and the cache as they are.
pub enable_governance-unregistered :
    (database : Text) (now : ℕ) (s : Service)
    → switch_of database s.tables ≡ none
    → (get_switch database s ≡ (err (http 404), s))
      × (enable_governance database now s ≡ (err (http 409), s))
unfolding get_switch db_session
enable_governance-unregistered database now s e = (
  unregistered (switch_of database s.tables) s e,
  enable_run database now s ∙ rw (row_of, e) refl,
)
