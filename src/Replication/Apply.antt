-- ===== src/Replication/Apply.antt =====
-- The cycle of one DDL change: pause the pipeline, alter, verify, resume, backfill
-- (scripts/ddl_apply.py).
pub mod Quiet
pub mod Verify
pub mod Changes
pub mod Cycle
pub mod Made
pub mod Success
pub mod Raised
pub mod Reported
pub mod DryRun
use stardatadblabs.Base.{
  ℕ, ◌==◌, Text, codes, has_infix, lower, Bool, true, false, not, ◌&&◌, ◌||◌, Option, none, some,
  List, [], ◌∷◌, ◌++◌, if◌then◌else◌,
}
use stardatadblabs.Base.Dict.{keys}
use stardatadblabs.Replication.Shell.{
  Completed, World, ok, raised, Result, Script, pure, raise, ◌>>=◌,
}
use stardatadblabs.Replication.Deployments.{WriteMode, suffix, is_empty}
use stardatadblabs.Replication.Statements.{
  Op, add, drop, modify, rename, truthy, ticked, build_ddl, run_spark_sql, iceberg_has_col,
  iceberg_col_type,
}
use stardatadblabs.Replication.Targets.{
  Request, catalog_name, namespace_name, table_name, Targets, target_deploys, scale_all, to_zero,
  confirm_stopped, confirm_started,
}
use stardatadblabs.Replication.Executor.{Executor, find_executor}
use stardatadblabs.Replication.Backfill.{run_backfill}

-- `(err + "\n" + out).lower()`
abbrev pub combined : Completed → Text
combined r = lower (r.errors ++ codes "\n" ++ r.out)

-- The errors of a statement that had been applied before.
unfoldable pub is_idempotent : Op → Text → Bool
unfolding has_infix
is_idempotent add text =
    has_infix text (codes "already exists") || has_infix text (codes "column already exists")
is_idempotent drop text =
    has_infix text (codes "cannot resolve")
    || (has_infix text (codes "no such column")
        || (has_infix text (codes "column not found") || has_infix text (codes "missing")))
is_idempotent modify text = false
is_idempotent rename text = has_infix text (codes "already exists")

-- Whether a statement leaves `all_ok` as it is.
abbrev pub is_applied : Op → Completed → Bool
is_applied op r = r.code == 0 || is_idempotent op (combined r)

abbrev pub from_result : {A : Type 0} → Result A → Script A
from_result (ok a) = pure a
from_result (raised e) = raise e

abbrev pub statement : Request → WriteMode → Result Text
statement q m = build_ddl q.op (table_name q m) q.col q.col_type q.new_col

-- `if DRY_RUN: continue`
abbrev pub execute : World → Executor → Op → Text → Script Bool
execute w x op ddl =
    if w.dry_run
    then pure true
    else (do r ← run_spark_sql w x.pod x.conf ddl; pure (is_applied op r))

-- Step 3, over the tables of the modes: whether each statement is applied.
unfoldable pub alter_tables : World → Executor → Request → List WriteMode → Script Bool
unfolding build_ddl run_spark_sql is_idempotent
alter_tables w x q [] = pure true
alter_tables w x q (m ∷ modes) = do
  ddl ← from_result (statement q m)
  applied ← execute w x q.op ddl
  rest ← alter_tables w x q modes
  pure (applied && rest)

-- `new_col if (op == "rename" and new_col) else col`, which is read for `add` only.
abbrev pub new_name : Request → Text
new_name q = elim q.new_col [ none ↦ [] | some n ↦ n ]

-- Step 4 for one table.
abbrev pub verify_add : World → Executor → Text → Text → Bool → Script Bool
verify_add w x fqn col true = do _ ← iceberg_col_type w x.pod x.conf fqn col; pure true
verify_add w x fqn col false = pure false

unfoldable pub verify_table : World → Executor → Request → Op → Text → Script Bool
unfolding iceberg_has_col iceberg_col_type
verify_table w x q drop fqn = do here ← iceberg_has_col w x.pod x.conf fqn q.col; pure (not here)
verify_table w x q rename fqn = do
  new_ok ← iceberg_has_col w x.pod x.conf fqn (new_name q)
  old_here ← iceberg_has_col w x.pod x.conf fqn q.col
  pure (new_ok && not old_here)
verify_table w x q modify fqn = do _ ← iceberg_col_type w x.pod x.conf fqn q.col; pure true
verify_table w x q add fqn = do
  present ← iceberg_has_col w x.pod x.conf fqn q.col
  verify_add w x fqn q.col present

unfoldable pub verify_modes : World → Executor → Request → List WriteMode → Script Bool
unfolding verify_table
verify_modes w x q [] = pure true
verify_modes w x q (m ∷ modes) = do
  verified ← verify_table w x q q.op (table_name q m)
  rest ← verify_modes w x q modes
  pure (verified && rest)

-- Step 4 is skipped in a dry run, and where there is no pod or no flags.
abbrev pub verify_tables : World → Executor → Request → Script Bool
verify_tables w x q =
    if w.dry_run || (is_empty x.pod || is_empty x.conf)
    then pure true
    else verify_modes w x q q.modes

abbrev pub alter_if : World → Executor → Request → Script Bool
alter_if w x q = if x.all_ok then alter_tables w x q q.modes else pure false

-- Step 6.
abbrev pub backfill_with : World → Executor → Request → Option Text → Script Bool
backfill_with w x q none = pure true
backfill_with w x q (some pk_col) =
    if is_empty x.pod || is_empty x.conf
    then pure true
    else run_backfill w q.source q.table q.col pk_col x.pod (
        ticked (catalog_name q)
        ++ codes "."
        ++ ticked (namespace_name q)
        ++ codes "."
        ++ ticked q.table)

abbrev pub is_add : Op → Bool
is_add add = true
is_add _ = false

abbrev pub backfill_if : World → Executor → Request → Script Bool
backfill_if w x q =
    if q.backfill && (is_add q.op && not w.dry_run)
    then backfill_with w x q (truthy q.pk_col)
    else pure true

abbrev pub confirm_resumed : World → Targets → Script Bool
confirm_resumed w ts = if w.dry_run then pure true else confirm_started w ts

-- From step 1 on.
unfoldable pub run_steps : World → Request → Targets → Script Bool
unfolding scale_all confirm_stopped find_executor alter_tables verify_modes confirm_started
    run_backfill
run_steps w q ts = do
  _ ← scale_all w (to_zero ts)
  _ ← confirm_stopped w ts
  x ← find_executor w (keys ts)
  altered ← alter_if w x q
  verified ← verify_tables w x q
  _ ← scale_all w ts
  _ ← confirm_resumed w ts
  filled ← backfill_if w x q
  pure (x.all_ok && (altered && (verified && filled)))

abbrev pub no_targets : Targets → Bool
no_targets [] = true
no_targets (t ∷ ts) = false

abbrev pub steps_if_any : World → Request → Targets → Script Bool
steps_if_any w q ts = if no_targets ts && not w.dry_run then pure false else run_steps w q ts

unfoldable pub apply_ddl : World → Request → Script Bool
unfolding target_deploys run_steps
apply_ddl w q = do ts ← target_deploys w q.source q.modes []; steps_if_any w q ts
