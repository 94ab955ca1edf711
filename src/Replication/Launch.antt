-- ===== src/Replication/Launch.antt =====
-- The command line of ddl_apply.py: what it refuses, asks and runs (scripts/ddl_apply.py).
pub mod Checked
use stardatadblabs.Base.{
  ℕ, ◌==◌, Text, codes, text_eq, lower, Bool, true, false, not, ◌&&◌, ◌||◌, Option, none, some,
  List, [], ◌∷◌, if◌then◌else◌,
}
use stardatadblabs.Base.Lines.{strip, split_at}
use stardatadblabs.Replication.Shell.{World, Source, Result, Script, pure, ◌>>=◌}
use stardatadblabs.Replication.Deployments.{
  WriteMode, standard, soft_delete, history_tracking, deploy_name, deployment_exists, is_empty,
}
use stardatadblabs.Replication.Statements.{Op, add, drop, modify, rename, truthy}
use stardatadblabs.Replication.Targets.{Request}
use stardatadblabs.Replication.Apply.{from_result, statement, apply_ddl, is_add}

-- What argparse hands over: `modes` is still a text.
pub record Arguments : Type 0 where
  pub source : Source
  pub table : Text
  pub op : Op
  pub col : Text
  pub col_type : Option Text
  pub new_col : Option Text
  pub modes : Text
  pub namespace : Option Text
  pub catalog : Option Text
  pub backfill : Bool
  pub pk_col : Option Text
  pub dry_run : Bool
  pub yes_given : Bool

-- The keys of `_WRITE_MODES`.
abbrev pub mode_of : Text → Option WriteMode
mode_of t =
    if text_eq t (codes "standard")
    then some standard
    else if text_eq t (codes "soft_delete")
    then some soft_delete
    else if text_eq t (codes "history_tracking")
    then some history_tracking
    else none

-- `[m.strip() for m in modes.split(",") if m.strip()]`, and none where a mode is unknown.
abbrev add_mode : Option WriteMode → Option (List WriteMode) → Option (List WriteMode)
add_mode none rest = none
add_mode (some m) none = none
add_mode (some m) (some ms) = some (m ∷ ms)

unfoldable pub parse_modes : List Text → Option (List WriteMode)
unfolding strip text_eq
parse_modes [] = some []
parse_modes (t ∷ ts) =
    let rest = parse_modes ts in
    if is_empty (strip t) then rest else add_mode (mode_of (strip t)) rest

abbrev pub is_missing : Option Text → Bool
is_missing none = true
is_missing (some t) = is_empty t

-- The requirements of each operation; false where `main` exits with 1.
abbrev pub needs : Op → Option Text → Option Text → Bool
needs add col_type new_col = not (is_missing col_type)
needs drop col_type new_col = true
needs modify col_type new_col = not (is_missing col_type)
needs rename col_type new_col = not (is_missing new_col)

unfoldable pub is_complete : Arguments → Bool
is_complete a =
    needs a.op a.col_type a.new_col && (not a.backfill || is_add a.op && not (is_missing a.pk_col))

abbrev pub request_of : Arguments → List WriteMode → Request
request_of a modes = record {
  source = a.source;
  table = a.table;
  op = a.op;
  col = a.col;
  col_type = a.col_type;
  new_col = a.new_col;
  modes = modes;
  namespace = a.namespace;
  catalog = a.catalog;
  backfill = a.backfill;
  pk_col = a.pk_col;
}

-- The banner builds the statement of every mode.
unfoldable pub show_statements : Request → List WriteMode → Script (Unit {0})
show_statements q [] = pure tt
show_statements q (m ∷ modes) = do _ ← from_result (statement q m); show_statements q modes

-- The banner looks for every Deployment, unless the run is dry.
unfoldable pub show_deploys : World → Source → List WriteMode → Script (Unit {0})
unfolding deployment_exists
show_deploys w s [] = pure tt
show_deploys w s (m ∷ modes) = do
  _ ← if w.dry_run then pure true else deployment_exists w (deploy_name s m)
  show_deploys w s modes

abbrev pub exit_code : Bool → ℕ
exit_code true = 0
exit_code false = 1

abbrev pub run_request : World → Request → Script ℕ
run_request w q = do success ← apply_ddl w q; pure (exit_code success)

-- `DRY_RUN` after the arguments are read.
abbrev pub world_of : World → Arguments → World
world_of w a = record w { dry_run = w.dry_run || a.dry_run }

-- The prompt: `answer` is what is typed, empty at the end of the input.
abbrev pub agrees : World → Arguments → Text → Bool
agrees w a answer = w.dry_run || (a.yes_given || text_eq (lower (strip answer)) (codes "yes"))

abbrev pub confirmed : World → Request → Bool → Script ℕ
confirmed w q true = run_request w q
confirmed w q false = pure 0

abbrev pub launch : World → Arguments → Text → Request → Script ℕ
launch w a answer q = do
  _ ← show_statements q q.modes
  _ ← show_deploys w q.source q.modes
  confirmed w q (agrees w a answer)

abbrev pub launch_modes : World → Arguments → Text → Option (List WriteMode) → Script ℕ
launch_modes w a answer none = pure 1
launch_modes w a answer (some modes) =
    if is_complete a then launch w a answer (request_of a modes) else pure 1

-- `main`, up to the exit code.
unfoldable pub main : World → Arguments → Text → Script ℕ
unfolding parse_modes split_at is_complete show_statements show_deploys apply_ddl
main w a answer = launch_modes (world_of w a) a answer (parse_modes (split_at b',' a.modes))
