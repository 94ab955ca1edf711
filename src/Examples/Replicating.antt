-- ===== src/Examples/Replicating.antt =====
-- The theorems on DDL runs, on a small cluster.
use stardatadblabs.Base.{
  ℕ, ◌+◌, ◌==◌, ◌≡◌, refl, arith, Text, codes, text_eq, lower, true, false, Option, none, some,
  List, [], ◌∷◌, if◌then◌else◌,
}
use stardatadblabs.Base.Dict.{keys}
use stardatadblabs.Replication.Shell.{
  oracle, postgres, metadata_name, Command, get_deployment, get_first_pod, scale_deployment,
  build_conf, spark_sql, sleep, find_stale, replay, Completed, World, ok,
}
use stardatadblabs.Replication.Deployments.{
  standard, soft_delete, deploy_name, stop_timeout_s, wait_fully_stopped,
}
use stardatadblabs.Replication.Deployments.Waiting.{KeepsTime}
use stardatadblabs.Replication.Deployments.Stopping.{IsStopping, wait_fully_stopped-IsStopping}
use stardatadblabs.Replication.Statements.{add}
use stardatadblabs.Replication.Targets.{Request, Targets}
use stardatadblabs.Replication.Executor.{search_pod}
use stardatadblabs.Replication.Executor.Host.{IsHosted, search_pod-IsHosted}
use stardatadblabs.Replication.Apply.{statement, apply_ddl}
use stardatadblabs.Replication.Apply.DryRun.{apply_ddl-dry_run}
use stardatadblabs.Replication.Apply.Reported.{IsSuccess, apply_ddl-IsSuccess}
use stardatadblabs.Replication.Launch.{Arguments, is_complete, request_of, main}
use stardatadblabs.Replication.Launch.Checked.{is_complete-statement, IsZeroExit, main-IsZeroExit}
use stardatadblabs.Replication.Trace.{changes}

abbrev answer : Text → Option Completed
answer t = some (record { code = 0; out = t; errors = [] })

abbrev oracle_deploy : Text
oracle_deploy = deploy_name oracle standard

-- The replicas of a Deployment: those it was scaled to last.
abbrev replicas : List Command → Text → Text
replicas [] d = codes "2"
replicas (scale_deployment e n ∷ past) d =
    let rest = replicas past d in
    if text_eq e d then (if n == 0 then codes "0" else codes "2") else rest
replicas (c ∷ past) d = replicas past d

-- Oracle has one Deployment, PostgreSQL another; every statement works.
respond : List Command → Command → Option Completed
unfolding text_eq
respond past (get_deployment metadata_name d) =
    if text_eq d oracle_deploy
    then answer d
    else if text_eq d (deploy_name postgres standard)
    then answer d
    else answer []
respond past (get_deployment f d) = answer (replicas past d)
respond past get_first_pod = answer (codes "streaming-0\n")
respond past (scale_deployment d n) = answer (codes "scaled")
respond past (build_conf pod) = answer (codes "spark.a=1\nspark.b=2\n")
respond past (spark_sql pod conf sql) = answer (codes "id bigint\nemail string\n")
respond past (find_stale pod topic col ends) = answer (codes "STALE_START={}\n")
respond past (replay pod fqn topic col pk start ends) = answer (codes "BACKFILL_RESULT=OK rows=3\n")
respond past c = answer []

abbrev seconds : Command → ℕ
seconds (sleep s) = s
seconds _ = 0

abbrev clock : List Command → ℕ
clock [] = 0
clock (c ∷ past) = seconds c + clock past

abbrev cluster : World
cluster = record {
  respond = respond;
  clock = clock;
  checkpoint = λ past s. some ((codes "oracle.cache_testing.customers", (0, 502) ∷ []) ∷ []);
  load_offsets = λ t. some ((0, 17) ∷ []);
  spark_pod = [];
  dry_run = false;
}

cluster-KeepsTime : KeepsTime cluster
cluster-KeepsTime = record { forward = λ c past. omega arith; sleeps = λ s past. omega arith }

abbrev add_email : Request
add_email = record {
  source = oracle;
  table = codes "customers";
  op = add;
  col = codes "Email";
  col_type = some (codes "string");
  new_col = none;
  modes = standard ∷ soft_delete ∷ [];
  namespace = none;
  catalog = none;
  backfill = true;
  pk_col = some (codes "id");
}

add_email_run : (apply_ddl cluster add_email []).0 ≡ ok true
unfolding apply_ddl respond keys lower
add_email_run = refl

abbrev after : List Command
after = (apply_ddl cluster add_email []).1

apply_ddl-IsSuccess_example : IsSuccess cluster add_email [] after
unfolding apply_ddl respond keys lower
apply_ddl-IsSuccess_example = apply_ddl-IsSuccess cluster add_email [] after refl refl

abbrev rehearsal : World
rehearsal = record cluster { dry_run = true }

apply_ddl-dry_run_example : changes (apply_ddl rehearsal add_email []).1 ≡ []
apply_ddl-dry_run_example = apply_ddl-dry_run rehearsal refl add_email []

wait_fully_stopped-IsStopping_example :
    IsStopping cluster oracle_deploy stop_timeout_s [] (wait_fully_stopped cluster oracle_deploy [])
wait_fully_stopped-IsStopping_example =
    wait_fully_stopped-IsStopping cluster oracle_deploy [] refl cluster-KeepsTime

abbrev arguments : Arguments
arguments = record {
  source = oracle;
  table = codes "customers";
  op = add;
  col = codes "Email";
  col_type = some (codes "string");
  new_col = none;
  modes = codes "standard, soft_delete";
  namespace = none;
  catalog = none;
  backfill = true;
  pk_col = some (codes "id");
  dry_run = false;
  yes_given = false;
}

is_complete-statement_example :
    (ddl : Text) × (statement (request_of arguments (standard ∷ [])) standard ≡ ok ddl)
unfolding is_complete
is_complete-statement_example = is_complete-statement arguments (standard ∷ []) standard refl

main-IsZeroExit_example :
    IsZeroExit cluster arguments (codes "Yes") [] (main cluster arguments (codes "Yes") []).1
unfolding main respond keys lower
main-IsZeroExit_example = main-IsZeroExit cluster arguments (codes "Yes") [] _ refl refl

search_pod-IsHosted_example :
    let deploys = deploy_name postgres standard ∷ [] in
    let (r, past) = search_pod cluster (oracle_deploy ∷ []) deploys [] in
    IsHosted cluster (oracle_deploy ∷ []) deploys (codes "streaming-0") past
unfolding search_pod respond
search_pod-IsHosted_example =
    search_pod-IsHosted cluster (oracle_deploy ∷ []) (deploy_name postgres standard ∷ []) []
      (codes "streaming-0") _ refl
