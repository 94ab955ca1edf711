-- ===== src/Replication/Apply/Quiet.antt =====
-- The parts of a DDL run that only read: they change nothing, whether they return or raise
-- (scripts/ddl_apply.py).
use stardatadblabs.Base.{
  ℕ, zero, suc, ap, ◌+◌, ◌==◌, ltb, leb, Text, contains, Bool, true, false, not, ◌&&◌, Option, none,
  some, List, [], ◌∷◌,
}
use stardatadblabs.Base.Numerals.{is_numeral, int_or}
use stardatadblabs.Replication.Shell.{
  Source, DeployField, get_deployment, get_first_pod, build_conf, World, Script, raise_if,
  runtime_error, out_of_rounds, subprocess_run,
}
use stardatadblabs.Replication.Deployments.{
  WriteMode, sources, deploy_name, is_empty, field, deployment_exists, deployment_replicas,
  is_stopped, is_started, round, poll_until, poll_s, wait_for, stop_timeout_s, start_timeout_s,
  wait_fully_stopped, wait_fully_started,
}
use stardatadblabs.Replication.Targets.{
  Targets, add_target, target_deploys, confirm_stopped, confirm_started,
}
use stardatadblabs.Replication.Executor.{
  known_deploys, pod_if_ready, pod_if_there, search_pod, find_spark_pod, get_spark_conf_flags,
  conf_of_pod, find_executor,
}
use stardatadblabs.Replication.Trace.{
  changes, IsQuiet, pure-IsQuiet, raise-IsQuiet, bind-IsQuiet, if-IsQuiet, try_except-IsQuiet,
  subprocess_run-past, kubectl-past,
}

pub field-IsQuiet : (w : World) (f : DeployField) (d : Text) → IsQuiet (field w f d)
field-IsQuiet w f d = record {
  quiet = λ past. ap changes (kubectl-past w false (get_deployment f d) past);
}

pub deployment_exists-IsQuiet : (w : World) (d : Text) → IsQuiet (deployment_exists w d)
unfolding deployment_exists
deployment_exists-IsQuiet w d = bind-IsQuiet _ _ (field-IsQuiet w _ d) λ out. pure-IsQuiet _

deployment_replicas-IsQuiet : (w : World) (d : Text) → IsQuiet (deployment_replicas w d)
unfolding deployment_replicas
deployment_replicas-IsQuiet w d = bind-IsQuiet _ _ (field-IsQuiet w _ d) λ out. pure-IsQuiet _

is_stopped-IsQuiet : (w : World) (d : Text) → IsQuiet (is_stopped w d)
unfolding is_stopped
is_stopped-IsQuiet w d =
    bind-IsQuiet _ _ (field-IsQuiet w _ d)
      λ ready. bind-IsQuiet _ _ (field-IsQuiet w _ d) λ total. pure-IsQuiet _

is_started-IsQuiet : (w : World) (d : Text) → IsQuiet (is_started w d)
unfolding is_started
is_started-IsQuiet w d = bind-IsQuiet _ _ (field-IsQuiet w _ d) λ ready. pure-IsQuiet _

module _ (w : World) (check : Script Bool) (quiet : IsQuiet check) where
  round-IsQuiet :
      (n : ℕ) (rest : Script Bool) (b : Bool) → IsQuiet rest → IsQuiet (round check n rest b)
  round-IsQuiet n rest true q =
      bind-IsQuiet _ _ quiet
        (elim [ true ↦ pure-IsQuiet true | false ↦ record { quiet = λ past. q.quiet _ } ])
  round-IsQuiet n rest false q = pure-IsQuiet false

  poll_until-IsQuiet : (n deadline rounds : ℕ) → IsQuiet (poll_until w check n deadline rounds)
  unfolding poll_until
  poll_until-IsQuiet n deadline zero = raise-IsQuiet out_of_rounds
  poll_until-IsQuiet n deadline (suc rounds) = record {
    quiet = λ past.
        (round-IsQuiet n _ (ltb (w.clock past) deadline)
            (poll_until-IsQuiet n deadline rounds)).quiet
          past;
  }

  wait_for-IsQuiet : (t : ℕ) → IsQuiet (wait_for w check t)
  unfolding wait_for
  wait_for-IsQuiet t =
      if-IsQuiet w.dry_run _ _ (pure-IsQuiet true)
        record { quiet = λ past. (poll_until-IsQuiet poll_s (w.clock past + t) (suc t)).quiet past }

wait_fully_stopped-IsQuiet : (w : World) (d : Text) → IsQuiet (wait_fully_stopped w d)
unfolding wait_fully_stopped
wait_fully_stopped-IsQuiet w d = wait_for-IsQuiet w _ (is_stopped-IsQuiet w d) stop_timeout_s

wait_fully_started-IsQuiet : (w : World) (d : Text) → IsQuiet (wait_fully_started w d)
unfolding wait_fully_started
wait_fully_started-IsQuiet w d = wait_for-IsQuiet w _ (is_started-IsQuiet w d) start_timeout_s

add_target-IsQuiet :
    (w : World) (d : Text) (ts : Targets) (b : Bool) → IsQuiet (add_target w d ts b)
add_target-IsQuiet w d ts true =
    bind-IsQuiet _ _ (if-IsQuiet w.dry_run _ _ (pure-IsQuiet 1) (deployment_replicas-IsQuiet w d))
      λ n. pure-IsQuiet _
add_target-IsQuiet w d ts false = pure-IsQuiet ts

pub target_deploys-IsQuiet :
    (w : World) (s : Source) (modes : List WriteMode) (ts : Targets)
    → IsQuiet (target_deploys w s modes ts)
unfolding target_deploys
target_deploys-IsQuiet w s [] ts = pure-IsQuiet ts
target_deploys-IsQuiet w s (m ∷ modes) ts =
    bind-IsQuiet _ _ (deployment_exists-IsQuiet w (deploy_name s m)) λ there.
      bind-IsQuiet _ _ (add_target-IsQuiet w (deploy_name s m) ts there)
        λ ts'. target_deploys-IsQuiet w s modes ts'

pub confirm_stopped-IsQuiet : (w : World) (ts : Targets) → IsQuiet (confirm_stopped w ts)
unfolding confirm_stopped
confirm_stopped-IsQuiet w [] = pure-IsQuiet true
confirm_stopped-IsQuiet w ((d, n) ∷ ts) =
    bind-IsQuiet _ _ (wait_fully_stopped-IsQuiet w d)
      λ stopped. bind-IsQuiet _ _ (confirm_stopped-IsQuiet w ts) λ rest. pure-IsQuiet _

pub confirm_started-IsQuiet : (w : World) (ts : Targets) → IsQuiet (confirm_started w ts)
unfolding confirm_started
confirm_started-IsQuiet w [] = pure-IsQuiet true
confirm_started-IsQuiet w ((d, n) ∷ ts) =
    bind-IsQuiet _ _ (if-IsQuiet (ltb 0 n) _ _ (wait_fully_started-IsQuiet w d) (pure-IsQuiet true))
      λ started. bind-IsQuiet _ _ (confirm_started-IsQuiet w ts) λ rest. pure-IsQuiet _

pod_if_ready-IsQuiet :
    (w : World) (rest : Script Text) (ready : Text)
    → IsQuiet rest
    → IsQuiet (pod_if_ready w rest ready)
pod_if_ready-IsQuiet w rest ready q =
    if-IsQuiet (is_numeral ready && leb 1 (int_or 0 ready)) _ _
      (bind-IsQuiet _ _
        record { quiet = λ past. ap changes (kubectl-past w false get_first_pod past) }
        λ pod. if-IsQuiet (is_empty pod) _ _ q (pure-IsQuiet pod))
      q

pod_if_there-IsQuiet :
    (w : World) (rest : Script Text) (d : Text) (b : Bool)
    → IsQuiet rest
    → IsQuiet (pod_if_there w rest d b)
pod_if_there-IsQuiet w rest d true q =
    bind-IsQuiet _ _ (field-IsQuiet w _ d) λ ready. pod_if_ready-IsQuiet w rest ready q
pod_if_there-IsQuiet w rest d false q = q

search_pod-IsQuiet :
    (w : World) (excluded deploys : List Text) → IsQuiet (search_pod w excluded deploys)
unfolding search_pod
search_pod-IsQuiet w excluded [] = raise-IsQuiet runtime_error
search_pod-IsQuiet w excluded (d ∷ ds) =
    if-IsQuiet (contains excluded d) _ _ (search_pod-IsQuiet w excluded ds) (
      bind-IsQuiet _ _ (deployment_exists-IsQuiet w d)
        λ there. pod_if_there-IsQuiet w _ d there (search_pod-IsQuiet w excluded ds))

find_spark_pod-IsQuiet : (w : World) (excluded : List Text) → IsQuiet (find_spark_pod w excluded)
unfolding find_spark_pod
find_spark_pod-IsQuiet w excluded =
    if-IsQuiet (is_empty w.spark_pod) _ _ (search_pod-IsQuiet w excluded (known_deploys sources))
      (pure-IsQuiet w.spark_pod)

raise_if-IsQuiet : (b : Bool) → IsQuiet (raise_if b runtime_error)
raise_if-IsQuiet true = raise-IsQuiet runtime_error
raise_if-IsQuiet false = pure-IsQuiet tt

get_spark_conf_flags-IsQuiet : (w : World) (pod : Text) → IsQuiet (get_spark_conf_flags w pod)
unfolding get_spark_conf_flags
get_spark_conf_flags-IsQuiet w pod =
    bind-IsQuiet (subprocess_run w (build_conf pod)) _
      record { quiet = λ past. ap changes (subprocess_run-past w (build_conf pod) past) }
      λ r. bind-IsQuiet _ _ (raise_if-IsQuiet (not (r.code == 0))) λ u. pure-IsQuiet _

conf_of_pod-IsQuiet : (w : World) (pod : Option Text) → IsQuiet (conf_of_pod w pod)
conf_of_pod-IsQuiet w none = pure-IsQuiet _
conf_of_pod-IsQuiet w (some pod) =
    bind-IsQuiet _ _ (try_except-IsQuiet _ (get_spark_conf_flags-IsQuiet w pod))
      λ conf. pure-IsQuiet _

pub find_executor-IsQuiet : (w : World) (excluded : List Text) → IsQuiet (find_executor w excluded)
unfolding find_executor
find_executor-IsQuiet w excluded =
    bind-IsQuiet _ _ (try_except-IsQuiet _ (find_spark_pod-IsQuiet w excluded))
      λ pod. conf_of_pod-IsQuiet w pod
