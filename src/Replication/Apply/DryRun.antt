-- ===== src/Replication/Apply/DryRun.antt =====
-- A dry run changes nothing, whatever the world answers (scripts/ddl_apply.py).
use stardatadblabs.Base.{
  ◌≡◌, Text, Bool, true, false, not, ◌&&◌, List, [], ◌∷◌, arith, if◌then◌else◌,
}
use stardatadblabs.Base.Dict.{keys}
use stardatadblabs.Replication.Shell.{Command, World, Result, ok, raised, Script}
use stardatadblabs.Replication.Deployments.{WriteMode, scale}
use stardatadblabs.Replication.Targets.{Request, Targets, scale_all, to_zero}
use stardatadblabs.Replication.Executor.{Executor}
use stardatadblabs.Replication.Apply.{
  from_result, statement, alter_tables, is_add, run_steps, no_targets, apply_ddl,
}
use stardatadblabs.Replication.Apply.Quiet.{
  target_deploys-IsQuiet, confirm_stopped-IsQuiet, find_executor-IsQuiet,
}
use stardatadblabs.Replication.Apply.Verify.{verify_tables-IsQuiet}
use stardatadblabs.Replication.Trace.{
  changes, IsQuiet, pure-IsQuiet, raise-IsQuiet, bind-IsQuiet, if-IsQuiet,
}

if_true :
    {A : Type 0} (b : Bool) (m n : Script A) → b ≡ true → IsQuiet m → IsQuiet (if b then m else n)
if_true true m n h q = q
if_true false m n h q = cc

if_false :
    {A : Type 0} (b : Bool) (m n : Script A) → b ≡ false → IsQuiet n → IsQuiet (if b then m else n)
if_false true m n h q = cc
if_false false m n h q = q

pub from_result-IsQuiet : (r : Result Text) → IsQuiet (from_result r)
from_result-IsQuiet (ok ddl) = pure-IsQuiet ddl
from_result-IsQuiet (raised e) = raise-IsQuiet e

module _ (w : World) (dry : w.dry_run ≡ true) where
  scale_all-IsQuiet : (ts : Targets) → IsQuiet (scale_all w ts)
  unfolding scale_all scale
  scale_all-IsQuiet [] = pure-IsQuiet tt
  scale_all-IsQuiet ((d, n) ∷ ts) =
      bind-IsQuiet _ _ (if_true w.dry_run _ _ dry (pure-IsQuiet tt)) λ u. scale_all-IsQuiet ts

  alter_tables-IsQuiet :
      (x : Executor) (q : Request) (modes : List WriteMode) → IsQuiet (alter_tables w x q modes)
  unfolding alter_tables
  alter_tables-IsQuiet x q [] = pure-IsQuiet true
  alter_tables-IsQuiet x q (m ∷ modes) =
      bind-IsQuiet _ _ (from_result-IsQuiet (statement q m)) λ ddl.
        bind-IsQuiet _ _ (if_true w.dry_run _ _ dry (pure-IsQuiet true))
          λ applied. bind-IsQuiet _ _ (alter_tables-IsQuiet x q modes) λ rest. pure-IsQuiet _

  run_steps-IsQuiet : (q : Request) (ts : Targets) → IsQuiet (run_steps w q ts)
  unfolding run_steps
  run_steps-IsQuiet q ts = bind-IsQuiet _ _ (scale_all-IsQuiet (to_zero ts)) λ u.
      bind-IsQuiet _ _ (confirm_stopped-IsQuiet w ts) λ s.
        bind-IsQuiet _ _ (find_executor-IsQuiet w (keys ts)) λ x.
          bind-IsQuiet _ _
            (if-IsQuiet x.all_ok _ _ (alter_tables-IsQuiet x q q.modes) (pure-IsQuiet false))
            λ altered. bind-IsQuiet _ _ (verify_tables-IsQuiet w x q) λ verified.
              bind-IsQuiet _ _ (scale_all-IsQuiet ts) λ v.
                bind-IsQuiet _ _ (if_true w.dry_run _ _ dry (pure-IsQuiet true)) λ resumed.
                  bind-IsQuiet _ _
                    (if_false (q.backfill && (is_add q.op && not w.dry_run)) _ _ (ground arith)
                      (pure-IsQuiet true))
                    λ filled. pure-IsQuiet _

  -- A dry run changes nothing, whether it returns or raises.
  pub apply_ddl-dry_run :
      (q : Request) (past : List Command) → changes (apply_ddl w q past).1 ≡ changes past
  unfolding apply_ddl
  apply_ddl-dry_run q =
      (bind-IsQuiet _ _ (target_deploys-IsQuiet w q.source q.modes []) λ ts.
        if-IsQuiet (no_targets ts && not w.dry_run) _ _ (pure-IsQuiet false)
          (run_steps-IsQuiet q ts)).quiet
