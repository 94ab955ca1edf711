-- ===== src/Replication/Trace.antt =====
-- What a script leaves in the list of commands: the changes of the cluster and of the tables in it, and
-- how they go through the parts of a script.
use stardatadblabs.Base.{
  ◌≡◌, refl, sym, ap, ◌∙◌, Text, codes, starts_with, Bool, true, false, not, ◌==◌, ◌&&◌, Option,
  none, some, List, [], ◌∷◌, ◌++◌, keep, if◌then◌else◌,
}
use stardatadblabs.Replication.Shell.{
  Command, scale_deployment, spark_sql, replay, Completed, World, Result, ok, raised,
  process_failed, Script, Failure, pure, raise, go_on, ◌>>=◌, raise_if, or_raise, try_except,
  subprocess_run, kubectl,
}
use stardatadblabs.Replication.Statements.{run_spark_sql, escape_quotes}
use stardatadblabs.Base.Lines.{strip}

-- A change: a Deployment is scaled, a statement runs that does not describe a table, or messages are
-- merged into one.
abbrev pub is_change : Command → Bool
is_change (replay pod fqn topic col pk_col start end_offsets) = true
is_change (scale_deployment deploy n) = true
is_change (spark_sql pod conf sql) = not (starts_with sql (codes "DESCRIBE "))
is_change _ = false

abbrev pub changes : List Command → List Command
changes = keep is_change

-- The commands of a list, run in their order.
abbrev pub issued : List Command → List Command → List Command
issued [] past = past
issued (c ∷ cs) past = issued cs (c ∷ past)

pub issued-append :
    (cs ds past : List Command) → issued (cs ++ ds) past ≡ issued ds (issued cs past)
issued-append [] ds past = refl
issued-append (c ∷ cs) ds past = issued-append cs ds (c ∷ past)

-- A script that changes nothing, whether it returns or raises.
pub record IsQuiet {A : Type 0} (m : Script A) : Type 0 where
  pub quiet : (past : List Command) → changes (m past).1 ≡ changes past

module _ {A B : Type 0} where
  pub go_on-changes :
      (f : A → Script B) (r : Result A) (past : List Command)
      → ((a : A) → IsQuiet (f a))
      → changes (go_on f r past).1 ≡ changes past
  go_on-changes f (ok a) past q = (q a).quiet past
  go_on-changes f (raised e) past q = refl

  pub bind-IsQuiet :
      (m : Script A) (f : A → Script B) → IsQuiet m → ((a : A) → IsQuiet (f a)) → IsQuiet (m >>= f)
  bind-IsQuiet m f qm qf = record {
    quiet = λ past. go_on-changes f (m past).0 (m past).1 qf ∙ qm.quiet past;
  }

  split_bind :
      (f : A → Script B) (r : Result A) (mid : List Command) (b : B) (past' : List Command)
      → go_on f r mid ≡ (ok b, past')
      → (a : A) × (r ≡ ok a) × (f a mid ≡ (ok b, past'))
  split_bind f (ok a) mid b past' h = (a, refl, h)
  split_bind f (raised e) mid b past' h = absurd (cc (ap (λ p. p.0) h))

  -- A script that returns went through each of its parts.
  pub ran-bind :
      (m : Script A) (f : A → Script B) (past : List Command) (b : B) (past' : List Command)
      → (m >>= f) past ≡ (ok b, past')
      → (a : A) × (mid : List Command) × (m past ≡ (ok a, mid)) × (f a mid ≡ (ok b, past'))
  ran-bind m f past b past' h =
      let (a, e, k) = split_bind f (m past).0 (m past).1 b past' h in
      (a, (m past).1, ap (λ r. (r, (m past).1)) e, k)

  pub bind_ok :
      (m : Script A) (f : A → Script B) (past : List Command) (a : A) (mid : List Command)
      → m past ≡ (ok a, mid)
      → (m >>= f) past ≡ f a mid
  bind_ok m f past a mid h = ap (λ r. go_on f r.0 r.1) h

  pub bind_raised :
      (m : Script A) (f : A → Script B) (past : List Command) (e : Failure) (mid : List Command)
      → m past ≡ (raised e, mid)
      → (m >>= f) past ≡ (raised e, mid)
  bind_raised m f past e mid h = ap (λ r. go_on f r.0 r.1) h

module _ {A : Type 0} where
  pub quiet_ran :
      (m : Script A) (past : List Command) (a : A) (past' : List Command)
      → IsQuiet m
      → m past ≡ (ok a, past')
      → changes past' ≡ changes past
  quiet_ran m past a past' q h = sym (ap (λ r. changes r.1) h) ∙ q.quiet past

  pub pure-IsQuiet : (a : A) → IsQuiet (pure a)
  pure-IsQuiet a = record { quiet = λ past. refl }

  pub raise-IsQuiet : (e : Failure) → IsQuiet (raise {A = A} e)
  raise-IsQuiet e = record { quiet = λ past. refl }

  pub if-IsQuiet :
      (b : Bool) (m n : Script A) → IsQuiet m → IsQuiet n → IsQuiet (if b then m else n)
  if-IsQuiet true m n qm qn = qm
  if-IsQuiet false m n qm qn = qn

  pub try_except-IsQuiet : (m : Script A) → IsQuiet m → IsQuiet (try_except m)
  unfolding try_except
  try_except-IsQuiet m q = record { quiet = q.quiet }

or_raise-past :
    {A : Type 0} (o : Option A) (past : List Command) → (or_raise o process_failed past).1 ≡ past
or_raise-past none past = refl
or_raise-past (some a) past = refl

-- A command stands in the list whatever the world answers.
pub subprocess_run-past :
    (w : World) (c : Command) (past : List Command) → (subprocess_run w c past).1 ≡ c ∷ past
unfolding subprocess_run
subprocess_run-past w c past = or_raise-past (w.respond past c) (c ∷ past)

module _ {B : Type 0} where
  after_bind :
      (f : Completed → Script B) (r : Result Completed) (past : List Command)
      → ((a : Completed) (p : List Command) → (f a p).1 ≡ p)
      → (go_on f r past).1 ≡ past
  after_bind f (ok a) past h = h a past
  after_bind f (raised e) past h = refl

  after_run :
      (w : World) (c : Command) (f : Completed → Script B) (past : List Command)
      → ((a : Completed) (p : List Command) → (f a p).1 ≡ p)
      → ((subprocess_run w c >>= f) past).1 ≡ c ∷ past
  after_run w c f past h =
      after_bind f (subprocess_run w c past).0 (subprocess_run w c past).1 h
      ∙ subprocess_run-past w c past

check_past :
    (b : Bool) (t : Text) (p : List Command) → ((raise_if b process_failed >>= λ _. pure t) p).1 ≡ p
check_past true t p = refl
check_past false t p = refl

pub kubectl-past :
    (w : World) (check : Bool) (c : Command) (past : List Command)
    → (kubectl w check c past).1 ≡ c ∷ past
unfolding kubectl
kubectl-past w check c past =
    after_run w c _ past λ r p. check_past (check && not (r.code == 0)) (strip r.out) p

pub run_spark_sql-past :
    (w : World) (pod conf sql : Text) (past : List Command)
    → (run_spark_sql w pod conf sql past).1 ≡ spark_sql pod conf (escape_quotes (strip sql)) ∷ past
unfolding run_spark_sql
run_spark_sql-past w pod conf sql past = after_run w _ _ past λ r p. refl
