-- ===== src/Routers/Switch.antt =====
-- The governance switch of a database (routers/governance_switch.py). The time is an argument.
pub mod Run
pub mod Cycle
pub mod Routing
use stardatadblabs.Base.{
  ℕ, Text, codes, text_eq, Bool, true, false, not, Option, none, some, List, [], ◌∷◌, ◌++◌, ◌+◌,
  find, update, ◌==◌, if◌then◌else◌,
}
use stardatadblabs.Catalog.Rows.{GovernanceDatabase, Tables}
use stardatadblabs.Catalog.Session.{
  Error, http, Action, ◌>>=◌, ◌>>◌, pure, raise, raise_if, query, or_raise, write, db_session,
  cache_invalidate_prefix, policy_cache_prefix,
}

pub record DisableRequest : Type 0 where
  pub reason : Text
  pub disabled_by : Text

-- `select(GovernanceDatabase).where(…)`
abbrev pub switch_of : Text → Tables → Option GovernanceDatabase
switch_of database db = find (λ g. text_eq g.stardata_database database) db.switches

abbrev pub add_switch : GovernanceDatabase → Tables → Tables
add_switch row db = record db { switches = db.switches ++ (row ∷ []); next_id = db.next_id + 1 }

-- The row that `_get_or_create` adds.
abbrev pub new_switch : ℕ → Text → GovernanceDatabase
new_switch id database = record {
  id = id;
  stardata_database = database;
  governance_enabled = true;
  disabled_reason = none;
  disabled_by = none;
  disabled_at = none;
  enabled_at = none;
}

abbrev pub found_or_add : Option GovernanceDatabase → GovernanceDatabase → Action GovernanceDatabase
found_or_add none row = write (add_switch row) >> pure row
found_or_add (some g) row = pure g

-- `_get_or_create`
unfoldable pub get_or_create : Text → Action GovernanceDatabase
get_or_create database = do
  found ← query (switch_of database)
  id ← query (λ db. db.next_id)
  found_or_add found (new_switch id database)

-- The row is written over with the new values.
abbrev pub save_switch : GovernanceDatabase → Tables → Tables
save_switch row db = record db { switches = update (λ g. g.id == row.id) (λ g. row) db.switches }

unfoldable pub get_switch : Text → Action GovernanceDatabase
unfolding db_session
get_switch database = db_session (do found ← query (switch_of database); or_raise found (http 404))

abbrev pub disabled : DisableRequest → ℕ → GovernanceDatabase → GovernanceDatabase
disabled body now row = record row {
  governance_enabled = false;
  disabled_reason = some body.reason;
  disabled_by = some body.disabled_by;
  disabled_at = some now;
  enabled_at = none;
}

abbrev pub enabled : ℕ → GovernanceDatabase → GovernanceDatabase
enabled now row = record row {
  governance_enabled = true;
  disabled_reason = none;
  disabled_by = none;
  disabled_at = none;
  enabled_at = some now;
}

unfoldable pub disable_governance : Text → DisableRequest → ℕ → Action GovernanceDatabase
unfolding db_session get_or_create
disable_governance database body now = db_session (do
  row ← get_or_create database
  _ ← raise_if (not row.governance_enabled) (http 409)
  _ ← write (save_switch (disabled body now row))
  _ ← cache_invalidate_prefix policy_cache_prefix
  pure (disabled body now row))

unfoldable pub enable_governance : Text → ℕ → Action GovernanceDatabase
unfolding db_session get_or_create
enable_governance database now = db_session (do
  row ← get_or_create database
  _ ← raise_if row.governance_enabled (http 409)
  _ ← write (save_switch (enabled now row))
  _ ← cache_invalidate_prefix policy_cache_prefix
  pure (enabled now row))
