-- ===== src/Replication/Apply/Changes.antt =====
-- What a DDL run changes, in order, where it returns (scripts/ddl_apply.py).
use stardatadblabs.Base.{
  ℕ, ◌≡◌, refl, sym, ap, ◌∙◌, Text, codes, starts_with, Bool, true, false, Option, none, some, List,
  [], ◌∷◌, ◌++◌, if◌then◌else◌,
}
use stardatadblabs.Base.Lines.{strip, left_strip, right_strip}
use stardatadblabs.Replication.Shell.{
  Command, scale_deployment, spark_sql, World, Result, ok, raised, pure, ◌>>=◌, kubectl,
}
use stardatadblabs.Replication.Deployments.{WriteMode, scale}
use stardatadblabs.Replication.Statements.{
  Op, add, drop, modify, rename, build_ddl, escape_quotes, run_spark_sql,
}
use stardatadblabs.Replication.Targets.{Request, table_name, Targets, scale_all}
use stardatadblabs.Replication.Executor.{Executor}
use stardatadblabs.Replication.Apply.{
  is_applied, from_result, statement, execute, alter_tables, alter_if,
}
use stardatadblabs.Replication.Trace.{
  is_change, changes, issued, pure-IsQuiet, go_on-changes, ran-bind, kubectl-past,
  run_spark_sql-past,
}

-- The commands that scale the targets.
abbrev pub scales : Targets → List Command
scales [] = []
scales ((d, n) ∷ ts) = scale_deployment d n ∷ scales ts

-- The command of a statement.
abbrev pub alter_command : Executor → Text → Command
alter_command x ddl = spark_sql x.pod x.conf (escape_quotes (strip ddl))

abbrev pub alter_commands : Executor → Result Text → List Command
alter_commands x (ok ddl) = alter_command x ddl ∷ []
alter_commands x (raised e) = []

abbrev pub alters : Executor → Request → List WriteMode → List Command
alters x q [] = []
alters x q (m ∷ modes) = alter_commands x (statement q m) ++ alters x q modes

abbrev pub alters_if : Executor → Request → List Command
alters_if x q = if x.all_ok then alters x q q.modes else []

scale_unless :
    (b : Bool) (w : World) (d : Text) (n : ℕ) (past : List Command)
    → b ≡ false
    → changes
        ((if b then pure tt else (do _ ← kubectl w true (scale_deployment d n); pure tt)) past).1
      ≡ scale_deployment d n ∷ changes past
scale_unless true w d n past h = cc
scale_unless false w d n past h =
    let (r, p) = kubectl w true (scale_deployment d n) past in
    go_on-changes (λ _. pure tt) r p (λ t. pure-IsQuiet tt)
    ∙ ap changes (kubectl-past w true (scale_deployment d n) past)

scale-changes :
    (w : World) (d : Text) (n : ℕ) (past : List Command)
    → w.dry_run ≡ false
    → changes (scale w d n past).1 ≡ scale_deployment d n ∷ changes past
unfolding scale
scale-changes w d n past h = scale_unless w.dry_run w d n past h

pub scale_all-changes :
    (w : World) (ts : Targets) (past : List Command) (u : Unit {0}) (past' : List Command)
    → w.dry_run ≡ false
    → scale_all w ts past ≡ (ok u, past')
    → changes past' ≡ issued (scales ts) (changes past)
unfolding scale_all
scale_all-changes w [] past u past' h e = sym (ap (λ r. changes r.1) e)
scale_all-changes w ((d, n) ∷ ts) past u past' h e =
    let (v, mid, e1, e2) = ran-bind (scale w d n) _ past u past' e in
    scale_all-changes w ts mid u past' h e2
    ∙ ap (issued (scales ts)) (sym (ap (λ r. changes r.1) e1) ∙ scale-changes w d n past h)

abbrev ddl_of : Result Text → Text
ddl_of (ok ddl) = ddl
ddl_of (raised e) = []

-- A statement that is built alters a table.
build_ddl-alter :
    (op : Op) (fqn col : Text) (col_type new_col : Option Text) (ddl : Text)
    → build_ddl op fqn col col_type new_col ≡ ok ddl
    → (rest : Text) × (ddl ≡ codes "ALTER TABLE " ++ rest)
unfolding build_ddl
build_ddl-alter add fqn col none n ddl h = absurd (cc h)
build_ddl-alter add fqn col (some []) n ddl h = absurd (cc h)
build_ddl-alter add fqn col (some (c ∷ t)) n ddl h = (_, sym (ap ddl_of h))
build_ddl-alter drop fqn col t n ddl h = (_, sym (ap ddl_of h))
build_ddl-alter modify fqn col none n ddl h = absurd (cc h)
build_ddl-alter modify fqn col (some []) n ddl h = absurd (cc h)
build_ddl-alter modify fqn col (some (c ∷ t)) n ddl h = (_, sym (ap ddl_of h))
build_ddl-alter rename fqn col t none ddl h = absurd (cc h)
build_ddl-alter rename fqn col t (some []) ddl h = absurd (cc h)
build_ddl-alter rename fqn col t (some (c ∷ n)) ddl h = (_, sym (ap ddl_of h))

alter-is_change :
    (x : Executor) (rest : Text) → is_change (alter_command x (codes "ALTER TABLE " ++ rest)) ≡ true
unfolding escape_quotes strip left_strip right_strip starts_with
alter-is_change x rest = refl

statement-is_change :
    (q : Request) (m : WriteMode) (x : Executor) (ddl : Text)
    → statement q m ≡ ok ddl
    → is_change (alter_command x ddl) ≡ true
statement-is_change q m x ddl h =
    let (rest, e) = build_ddl-alter q.op (table_name q m) q.col q.col_type q.new_col ddl h in
    ap (λ t. is_change (alter_command x t)) e ∙ alter-is_change x rest

execute_unless :
    (b : Bool) (w : World) (x : Executor) (op : Op) (ddl : Text) (past : List Command)
    → b ≡ false
    → is_change (alter_command x ddl) ≡ true
    → changes
        ((if b
            then pure true
            else (do r ← run_spark_sql w x.pod x.conf ddl; pure (is_applied op r)))
          past).1
      ≡ alter_command x ddl ∷ changes past
execute_unless true w x op ddl past h k = cc
execute_unless false w x op ddl past h k =
    let (r, p) = run_spark_sql w x.pod x.conf ddl past in
    go_on-changes (λ a. pure (is_applied op a)) r p (λ a. pure-IsQuiet (is_applied op a))
    ∙ (ap changes (run_spark_sql-past w x.pod x.conf ddl past) ∙ kept k)
  where
    kept :
        is_change (alter_command x ddl) ≡ true
        → changes (alter_command x ddl ∷ past) ≡ alter_command x ddl ∷ changes past
    kept k = rw k refl

built :
    (r : Result Text) (past : List Command) (ddl : Text) (mid : List Command)
    → from_result r past ≡ (ok ddl, mid)
    → (r ≡ ok ddl) × (mid ≡ past)
built (ok d) past ddl mid h = (ap (λ p. p.0) h, sym (ap (λ p. p.1) h))
built (raised e) past ddl mid h = absurd (cc (ap (λ p. p.0) h))

-- Step 3 runs the statement of every table in the order of the modes.
alter_tables-changes :
    (w : World) (x : Executor) (q : Request) (modes : List WriteMode) (past : List Command)
    (b : Bool) (past' : List Command)
    → w.dry_run ≡ false
    → alter_tables w x q modes past ≡ (ok b, past')
    → changes past' ≡ issued (alters x q modes) (changes past)
unfolding alter_tables
alter_tables-changes w x q [] past b past' h e = sym (ap (λ r. changes r.1) e)
alter_tables-changes w x q (m ∷ modes) past b past' h e =
    let (ddl, mid, e1, k1) = ran-bind (from_result (statement q m)) _ past b past' e in
    let (applied, mid', e2, k2) = ran-bind (execute w x q.op ddl) _ mid b past' k1 in
    let (rest, last, e3, k3) = ran-bind (alter_tables w x q modes) _ mid' b past' k2 in
    let (is_ok, same) = built (statement q m) past ddl mid e1 in
    let one : changes mid' ≡ alter_command x ddl ∷ changes past =
      sym (ap (λ r. changes r.1) e2)
      ∙ (execute_unless w.dry_run w x q.op ddl mid h (statement-is_change q m x ddl is_ok)
          ∙ ap (λ p. alter_command x ddl ∷ changes p) same) in
    sym (ap (λ r. changes r.1) k3)
    ∙ (alter_tables-changes w x q modes mid' rest last h e3
        ∙ (ap (issued (alters x q modes)) one
            ∙ ap (λ r. issued (alter_commands x r ++ alters x q modes) (changes past)) (sym is_ok)))

pub alter_if-changes :
    (w : World) (x : Executor) (q : Request) (past : List Command) (b : Bool) (past' : List Command)
    → w.dry_run ≡ false
    → alter_if w x q past ≡ (ok b, past')
    → changes past' ≡ issued (alters_if x q) (changes past)
alter_if-changes w x q past b past' h e = by_all_ok x.all_ok e
  where
    by_all_ok :
        (c : Bool)
        → (if c then alter_tables w x q q.modes else pure false) past ≡ (ok b, past')
        → changes past' ≡ issued (if c then alters x q q.modes else []) (changes past)
    by_all_ok true k = alter_tables-changes w x q q.modes past b past' h k
    by_all_ok false k = sym (ap (λ r. changes r.1) k)
