-- ===== src/Replication/Shell.antt =====
-- The world of the DDL scripts (scripts/ddl_apply.py): the commands that they run, newest first, and
-- what answers them. An answer may depend on every command before it.
use stardatadblabs.Base.{ℕ, ◌==◌, Text, Bool, true, false, not, ◌&&◌, Option, none, some, List, ◌∷◌}
use stardatadblabs.Base.Lines.{strip}

pub data Source : Type 0 where
  oracle postgres mongodb : Source

-- The fields of a Deployment that a jsonpath names.
pub data DeployField : Type 0 where
  metadata_name spec_replicas ready_replicas total_replicas : DeployField

-- What a script asks of the world. `spark_sql` has the escaped statement, `find_stale` and `replay`
-- the arguments of the PySpark scripts that run in the pod.
pub data Command : Type 0 where
  get_deployment : DeployField → Text → Command
  get_first_pod : Command
  scale_deployment : Text → ℕ → Command
  build_conf : Text → Command
  spark_sql : Text → Text → Text → Command
  sleep : ℕ → Command
  read_checkpoint : Source → Command
  read_kafka_secret : Command
  find_stale : Text → Text → Text → List (ℕ × ℕ) → Command
  replay : Text → Text → Text → Text → Text → List (ℕ × ℕ) → List (ℕ × ℕ) → Command

-- `subprocess.CompletedProcess`
pub record Completed : Type 0 where
  pub code : ℕ
  pub out : Text
  pub errors : Text

-- `respond` is none where `subprocess.run` raises, as it does after its time limit. `load_offsets` is
-- `json.loads` with the keys and values of the object as numbers.
pub record World : Type 0 where
  pub respond : List Command → Command → Option Completed
  pub clock : List Command → ℕ
  pub checkpoint : List Command → Source → Option (List (Text × List (ℕ × ℕ)))
  pub load_offsets : Text → Option (List (ℕ × ℕ))
  pub spark_pod : Text
  pub dry_run : Bool

pub data Failure : Type 0 where
  process_failed value_error runtime_error out_of_rounds : Failure

pub data Result (A : Type 0) : Type 0 where
  ok : A → Result A
  raised : Failure → Result A

abbrev pub Script : Type 0 → Type 0
Script A = List Command → Result A × List Command

module _ {A : Type 0} where
  abbrev pub pure : A → Script A
  pure a past = (ok a, past)

  abbrev pub raise : Failure → Script A
  raise e past = (raised e, past)

abbrev pub go_on : {A B : Type 0} → (A → Script B) → Result A → Script B
go_on f (ok a) = f a
go_on f (raised e) = raise e

infixl 5 ◌>>=◌ ◌>>◌
abbrev pub ◌>>=◌ : {A B : Type 0} → Script A → (A → Script B) → Script B
◌>>=◌ m f past = go_on f (m past).0 (m past).1

abbrev pub ◌>>◌ : {A B : Type 0} → Script A → Script B → Script B
m >> k = m >>= λ _. k

abbrev pub raise_if : Bool → Failure → Script (Unit {0})
raise_if true e = raise e
raise_if false e = pure tt

abbrev pub or_raise : {A : Type 0} → Option A → Failure → Script A
or_raise none e = raise e
or_raise (some a) e = pure a

abbrev pub caught : {A : Type 0} → Result A → Option A
caught (ok a) = some a
caught (raised e) = none

-- `try: … except Exception`
unfoldable pub try_except : {A : Type 0} → Script A → Script (Option A)
try_except m past = (ok (caught (m past).0), (m past).1)

-- `subprocess.run`, without `check`.
unfoldable pub subprocess_run : World → Command → Script Completed
subprocess_run w c past = or_raise (w.respond past c) process_failed (c ∷ past)

-- `_kubectl(…, check=…)`
unfoldable pub kubectl : World → Bool → Command → Script Text
unfolding subprocess_run strip
kubectl w check c = do
  r ← subprocess_run w c
  _ ← raise_if (check && not (r.code == 0)) process_failed
  pure (strip r.out)

abbrev pub time : World → Script ℕ
time w past = (ok (w.clock past), past)

abbrev pub sleep_for : ℕ → Script (Unit {0})
sleep_for s past = (ok tt, sleep s ∷ past)
