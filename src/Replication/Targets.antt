-- ===== src/Replication/Targets.antt =====
-- The arguments of a DDL change, the Deployments that it pauses, and steps 1, 2 and 5: scaling them and
-- waiting for them (scripts/ddl_apply.py).
use stardatadblabs.Base.{
  ℕ, Text, codes, Bool, true, false, ◌&&◌, Option, none, some, List, [], ◌∷◌, ◌++◌, ltb,
  if◌then◌else◌,
}
use stardatadblabs.Base.Dict.{Dict, insert}
use stardatadblabs.Replication.Shell.{Source, World, Script, pure, ◌>>=◌}
use stardatadblabs.Replication.Deployments.{
  WriteMode, catalog_of, default_namespace, suffix, deploy_name, deployment_exists,
  deployment_replicas, scale, wait_fully_stopped, wait_fully_started,
}
use stardatadblabs.Replication.Statements.{Op, truthy, ticked}

-- The arguments of `apply_ddl`.
pub record Request : Type 0 where
  pub source : Source
  pub table : Text
  pub op : Op
  pub col : Text
  pub col_type : Option Text
  pub new_col : Option Text
  pub modes : List WriteMode
  pub namespace : Option Text
  pub catalog : Option Text
  pub backfill : Bool
  pub pk_col : Option Text

abbrev pub or_default : Option Text → Text → Text
or_default none t = t
or_default (some s) t = s

-- `catalog or smeta["catalog"]` and its like, and the names of the tables.
abbrev pub catalog_name : Request → Text
catalog_name q = or_default (truthy q.catalog) (catalog_of q.source)

abbrev pub namespace_name : Request → Text
namespace_name q = or_default (truthy q.namespace) (default_namespace q.source)

abbrev pub table_name : Request → WriteMode → Text
table_name q m =
    ticked (catalog_name q)
    ++ codes "."
    ++ ticked (namespace_name q)
    ++ codes "."
    ++ ticked (q.table ++ suffix m)

-- Deployments with their replicas, to which they are scaled back.
abbrev pub Targets : Type 0
Targets = Dict ℕ

abbrev orig_replicas : World → Text → Script ℕ
orig_replicas w deploy = if w.dry_run then pure 1 else deployment_replicas w deploy

abbrev pub add_target : World → Text → Targets → Bool → Script Targets
add_target w deploy ts true = do n ← orig_replicas w deploy; pure (insert deploy n ts)
add_target w deploy ts false = pure ts

unfoldable pub target_deploys : World → Source → List WriteMode → Targets → Script Targets
unfolding deployment_exists deployment_replicas insert
target_deploys w s [] ts = pure ts
target_deploys w s (m ∷ modes) ts = do
  there ← deployment_exists w (deploy_name s m)
  ts' ← add_target w (deploy_name s m) ts there
  target_deploys w s modes ts'

-- Steps 1 and 5: `for deploy, n in …: _scale(deploy, n)`.
unfoldable pub scale_all : World → Targets → Script (Unit {0})
unfolding scale
scale_all w [] = pure tt
scale_all w ((deploy, n) ∷ ts) = do _ ← scale w deploy n; scale_all w ts

abbrev pub to_zero : Targets → Targets
to_zero [] = []
to_zero ((deploy, n) ∷ ts) = (deploy, 0) ∷ to_zero ts

-- Step 2: whether every target is confirmed as stopped.
unfoldable pub confirm_stopped : World → Targets → Script Bool
unfolding wait_fully_stopped
confirm_stopped w [] = pure true
confirm_stopped w ((deploy, n) ∷ ts) = do
  stopped ← wait_fully_stopped w deploy
  rest ← confirm_stopped w ts
  pure (stopped && rest)

abbrev start_if_any : World → Text → ℕ → Script Bool
start_if_any w deploy n = if ltb 0 n then wait_fully_started w deploy else pure true

-- Whether every target that had replicas is ready again.
unfoldable pub confirm_started : World → Targets → Script Bool
unfolding wait_fully_started
confirm_started w [] = pure true
confirm_started w ((deploy, n) ∷ ts) = do
  started ← start_if_any w deploy n
  rest ← confirm_started w ts
  pure (started && rest)
