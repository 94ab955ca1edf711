-- ===== src/Replication/Executor.antt =====
-- The pod in which the statements run, and its Spark flags (scripts/ddl_apply.py).
pub mod Host
use stardatadblabs.Base.{
  leb, ◌==◌, Text, codes, contains, has_infix, Bool, true, false, not, ◌&&◌, Option, none, some,
  List, [], ◌∷◌, ◌++◌, map, if◌then◌else◌,
}
use stardatadblabs.Base.Numerals.{is_numeral, int_or}
use stardatadblabs.Base.Lines.{strip, split_lines, join_with}
use stardatadblabs.Replication.Shell.{
  Source, ready_replicas, get_first_pod, build_conf, World, runtime_error, Script, pure, raise,
  ◌>>=◌, raise_if, try_except, subprocess_run, kubectl,
}
use stardatadblabs.Replication.Deployments.{
  WriteMode, sources, write_modes, deploy_name, is_empty, field, deployment_exists,
}

-- `_find_spark_pod`: the candidates in order, and what is asked of each.
abbrev mode_deploys : Source → List WriteMode → List Text
mode_deploys s modes = map (deploy_name s) modes

abbrev pub known_deploys : List Source → List Text
known_deploys [] = []
known_deploys (s ∷ ss) = mode_deploys s write_modes ++ known_deploys ss

abbrev pub else_next : Script Text → Text → Script Text
else_next rest pod = if is_empty pod then rest else pure pod

abbrev pub pod_if_ready : World → Script Text → Text → Script Text
pod_if_ready w rest ready =
    if is_numeral ready && leb 1 (int_or 0 ready)
    then (do pod ← kubectl w false get_first_pod; else_next rest pod)
    else rest

abbrev pub pod_if_there : World → Script Text → Text → Bool → Script Text
pod_if_there w rest deploy true = do
  ready ← field w ready_replicas deploy
  pod_if_ready w rest ready
pod_if_there w rest deploy false = rest

unfoldable pub search_pod : World → List Text → List Text → Script Text
unfolding kubectl is_numeral int_or deployment_exists
search_pod w excluded [] = raise runtime_error
search_pod w excluded (deploy ∷ deploys) =
    let rest = search_pod w excluded deploys in
    if contains excluded deploy
    then rest
    else (do there ← deployment_exists w deploy; pod_if_there w rest deploy there)

unfoldable pub find_spark_pod : World → List Text → Script Text
unfolding search_pod
find_spark_pod w excluded =
    if is_empty w.spark_pod then search_pod w excluded (known_deploys sources) else pure w.spark_pod

-- `_get_spark_conf_flags`
abbrev conf_flag : Text → Text
conf_flag line = codes "--conf '" ++ strip line ++ codes "'"

unfoldable pub conf_flags : List Text → List Text
unfolding has_infix strip
conf_flags [] = []
conf_flags (line ∷ lines) =
    let rest = conf_flags lines in
    if has_infix line (codes "=") then conf_flag line ∷ rest else rest

unfoldable pub get_spark_conf_flags : World → Text → Script Text
unfolding subprocess_run conf_flags split_lines strip join_with
get_spark_conf_flags w pod = do
  r ← subprocess_run w (build_conf pod)
  _ ← raise_if (not (r.code == 0)) runtime_error
  pure (join_with (codes " ") (conf_flags (split_lines (strip r.out))))

-- The `try` of step 3: the pod and the flags, empty where they were not set, and `all_ok`.
pub record Executor : Type 0 where
  pub pod : Text
  pub conf : Text
  pub all_ok : Bool

abbrev with_conf : Text → Option Text → Executor
with_conf pod none = record { pod = pod; conf = []; all_ok = false }
with_conf pod (some conf) = record { pod = pod; conf = conf; all_ok = true }

abbrev pub conf_of_pod : World → Option Text → Script Executor
conf_of_pod w none = pure (record { pod = []; conf = []; all_ok = false })
conf_of_pod w (some pod) = do
  conf ← try_except (get_spark_conf_flags w pod)
  pure (with_conf pod conf)

unfoldable pub find_executor : World → List Text → Script Executor
unfolding try_except find_spark_pod get_spark_conf_flags
find_executor w excluded = do pod ← try_except (find_spark_pod w excluded); conf_of_pod w pod
