-- ===== src/Replication/Deployments.antt =====
-- The Deployments of the streaming pipeline: their names, scaling, and waiting for them to stop and to
-- start (scripts/ddl_apply.py).
pub mod Waiting
pub mod Stopping
use stardatadblabs.Base.{
  ℕ, zero, suc, ◌+◌, ◌==◌, leb, ltb, Text, codes, Bool, true, false, not, ◌&&◌, Option, none, some,
  List, [], ◌∷◌, ◌++◌, if◌then◌else◌,
}
use stardatadblabs.Base.Numerals.{is_numeral, int_or}
use stardatadblabs.Replication.Shell.{
  Source, oracle, postgres, mongodb, DeployField, metadata_name, spec_replicas, ready_replicas,
  total_replicas, Command, get_deployment, scale_deployment, World, Script, pure, raise, ◌>>=◌,
  kubectl, time, sleep_for, out_of_rounds,
}

pub data WriteMode : Type 0 where
  standard soft_delete history_tracking : WriteMode

-- `_SOURCE_REGISTRY` and `_WRITE_MODES`: their keys in order, and their fields.
abbrev pub sources : List Source
sources = oracle ∷ postgres ∷ mongodb ∷ []

abbrev pub write_modes : List WriteMode
write_modes = standard ∷ soft_delete ∷ history_tracking ∷ []

abbrev pub source_name : Source → Text
source_name oracle = codes "oracle"
source_name postgres = codes "postgres"
source_name mongodb = codes "mongodb"

abbrev pub catalog_of : Source → Text
catalog_of = source_name

abbrev pub default_namespace : Source → Text
default_namespace s = codes "cache_testing"

abbrev pub suffix : WriteMode → Text
suffix standard = []
suffix soft_delete = codes "_sd"
suffix history_tracking = codes "_hist"

abbrev pub mode_k8s : WriteMode → Text
mode_k8s standard = codes "standard"
mode_k8s soft_delete = codes "soft-delete"
mode_k8s history_tracking = codes "history-tracking"

abbrev pub deploy_name : Source → WriteMode → Text
deploy_name s m = codes "kafka-to-iceberg-" ++ source_name s ++ codes "-" ++ mode_k8s m

abbrev pub is_empty : Text → Bool
is_empty [] = true
is_empty (c ∷ s) = false

-- A field of a Deployment; a missing Deployment or field is printed as nothing.
abbrev pub field : World → DeployField → Text → Script Text
field w f deploy = kubectl w false (get_deployment f deploy)

unfoldable pub deployment_exists : World → Text → Script Bool
unfolding kubectl
deployment_exists w deploy = do out ← field w metadata_name deploy; pure (not (is_empty out))

unfoldable pub deployment_replicas : World → Text → Script ℕ
unfolding kubectl
deployment_replicas w deploy = do out ← field w spec_replicas deploy; pure (int_or 1 out)

-- `_scale`
unfoldable pub scale : World → Text → ℕ → Script (Unit {0})
unfolding kubectl
scale w deploy replicas =
    if w.dry_run then pure tt else do _ ← kubectl w true (scale_deployment deploy replicas); pure tt

-- What a round of `_wait_fully_stopped` asks: no ready replica and no replica.
unfoldable pub is_stopped : World → Text → Script Bool
unfolding kubectl
is_stopped w deploy = do
  ready ← field w ready_replicas deploy
  total ← field w total_replicas deploy
  pure (int_or 0 ready == 0 && int_or 0 total == 0)

-- What a round of `_wait_fully_started` asks: a ready replica.
unfoldable pub is_started : World → Text → Script Bool
unfolding kubectl
is_started w deploy = do ready ← field w ready_replicas deploy; pure (leb 1 (int_or 0 ready))

-- A round of `while time.time() < deadline: if <check>: return True; time.sleep(poll_s)`, where `rest`
-- are the rounds after it.
abbrev pub after_check : ℕ → Script Bool → Bool → Script Bool
after_check poll_s rest true = pure true
after_check poll_s rest false = do _ ← sleep_for poll_s; rest

abbrev pub round : Script Bool → ℕ → Script Bool → Bool → Script Bool
round check poll_s rest true = do done ← check; after_check poll_s rest done
round check poll_s rest false = pure false

unfoldable pub poll_until : World → Script Bool → (poll_s deadline rounds : ℕ) → Script Bool
poll_until w check poll_s deadline zero = raise out_of_rounds
poll_until w check poll_s deadline (suc rounds) =
    let rest = poll_until w check poll_s deadline rounds in
    do now ← time w; round check poll_s rest (ltb now deadline)

abbrev pub poll_s : ℕ
poll_s = 5

abbrev pub stop_timeout_s : ℕ
stop_timeout_s = 120

abbrev pub start_timeout_s : ℕ
start_timeout_s = 180

-- A round sleeps for at least a second, so the rounds are enough: `timeout_s + 1`.
unfoldable pub wait_for : World → Script Bool → ℕ → Script Bool
unfolding poll_until
wait_for w check timeout_s =
    if w.dry_run
    then pure true
    else do start ← time w; poll_until w check poll_s (start + timeout_s) (suc timeout_s)

unfoldable pub wait_fully_stopped : World → Text → Script Bool
unfolding wait_for is_stopped
wait_fully_stopped w deploy = wait_for w (is_stopped w deploy) stop_timeout_s

unfoldable pub wait_fully_started : World → Text → Script Bool
unfolding wait_for is_started
wait_fully_started w deploy = wait_for w (is_started w deploy) start_timeout_s
