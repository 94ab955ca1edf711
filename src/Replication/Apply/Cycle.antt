-- ===== src/Replication/Apply/Cycle.antt =====
-- The whole cycle of a DDL run: what it changes, in order, and a dry run (scripts/ddl_apply.py).
use stardatadblabs.Base.{
  ◌≡◌, refl, sym, ap, ◌∙◌, ◌⊎◌, inl, inr, Text, codes, Bool, true, false, not, ◌&&◌, ◌||◌, Option,
  none, some, List, ◌∷◌, ◌++◌, arith, if◌then◌else◌,
}
use mathlib.Core.Path.{subst}
use stardatadblabs.Base.Dict.{keys}
use stardatadblabs.Replication.Shell.{Command, replay, World, ok, pure}
use stardatadblabs.Replication.Deployments.{is_empty}
use stardatadblabs.Replication.Statements.{Op, add, drop, modify, rename, truthy, ticked}
use stardatadblabs.Replication.Targets.{
  Request, catalog_name, namespace_name, Targets, scale_all, to_zero, confirm_stopped,
}
use stardatadblabs.Replication.Executor.{Executor, find_executor}
use stardatadblabs.Replication.Backfill.{Offsets, topic_of, run_backfill}
use stardatadblabs.Replication.Backfill.Replays.{run_backfill-IsReplayed}
use stardatadblabs.Replication.Apply.{
  alter_if, verify_tables, is_add, backfill_with, backfill_if, confirm_resumed, run_steps,
}
use stardatadblabs.Replication.Apply.Quiet.{
  confirm_stopped-IsQuiet, confirm_started-IsQuiet, find_executor-IsQuiet,
}
use stardatadblabs.Replication.Apply.Verify.{verify_tables-IsQuiet}
use stardatadblabs.Replication.Apply.Changes.{
  scales, alters_if, scale_all-changes, alter_if-changes,
}
use stardatadblabs.Replication.Trace.{
  changes, issued, issued-append, IsQuiet, pure-IsQuiet, if-IsQuiet, ran-bind, quiet_ran,
}

abbrev pub main_table : Request → Text
main_table q =
    ticked (catalog_name q) ++ codes "." ++ ticked (namespace_name q) ++ codes "." ++ ticked q.table

-- The changes after step 6: those before it, or for an added column with a key one replay more.
abbrev pub IsFilled : Request → Executor → List Command → List Command → Type 0
IsFilled q x before after =
    (after ≡ before)
    ⊎ ((q.backfill ≡ true)
        × (q.op ≡ add)
        × (pk_col : Text) × (truthy q.pk_col ≡ some pk_col)
        × (start : Offsets) × (ends : Offsets) × (after
            ≡ replay x.pod (main_table q) (topic_of q.source q.table) q.col pk_col start ends
              ∷ before))

is_add-add : (op : Op) → is_add op ≡ true → op ≡ add
is_add-add add h = refl
is_add-add drop h = cc
is_add-add modify h = cc
is_add-add rename h = cc

-- A run with the pod and a key, in the three ways it may go.
with_key :
    (w : World) (x : Executor) (q : Request) (k : Option Text) (past : List Command)
    → truthy q.pk_col ≡ k
    → q.backfill ≡ true
    → q.op ≡ add
    → IsFilled q x (changes past) (changes (backfill_with w x q k past).1)
with_key w x q none past e b a = inl refl
with_key w x q (some pk) past e b a = by_pod (is_empty x.pod || is_empty x.conf)
  where
    by_pod :
        (c : Bool)
        → IsFilled q x (changes past) (
            changes
              ((if c
                  then pure true
                  else run_backfill w q.source q.table q.col pk x.pod (main_table q))
                past).1)
    by_pod true = inl refl
    by_pod false =
        elim (run_backfill-IsReplayed w q.source q.table q.col pk x.pod (main_table q) past) [
          | inl same ↦ inl same
          | inr (start, ends, more) ↦ inr (b, a, pk, e, start, ends, more)
        ]

backfill_if-IsFilled :
    (w : World) (x : Executor) (q : Request) (past : List Command)
    → IsFilled q x (changes past) (changes (backfill_if w x q past).1)
backfill_if-IsFilled w x q past = by_test _ refl
  where
    by_test :
        (c : Bool)
        → q.backfill && (is_add q.op && not w.dry_run) ≡ c
        → IsFilled q x
            (changes past)
            (changes ((if c then backfill_with w x q (truthy q.pk_col) else pure true) past).1)
    by_test true e =
        with_key w x q (truthy q.pk_col) past refl (ground arith) (is_add-add q.op (ground arith))
    by_test false e = inl refl

-- Every Deployment is scaled to zero, then every statement runs, then every Deployment is scaled back
-- to its replicas, then messages may be replayed.
abbrev pub IsCycle : Request → Targets → List Command → List Command → Type 0
IsCycle q ts before after =
    (x : Executor) × IsFilled q x
      (issued (scales (to_zero ts) ++ (alters_if x q ++ scales ts)) before) after

confirm_resumed-IsQuiet : (w : World) (ts : Targets) → IsQuiet (confirm_resumed w ts)
confirm_resumed-IsQuiet w ts =
    if-IsQuiet w.dry_run _ _ (pure-IsQuiet true) (confirm_started-IsQuiet w ts)

pub run_steps-IsCycle :
    (w : World) (q : Request) (ts : Targets) (past : List Command) (b : Bool) (past' : List Command)
    → w.dry_run ≡ false
    → run_steps w q ts past ≡ (ok b, past')
    → IsCycle q ts (changes past) (changes past')
unfolding run_steps
run_steps-IsCycle w q ts past b past' h e =
    let (u, p1, e1, k1) = ran-bind (scale_all w (to_zero ts)) _ past b past' e in
    let (s, p2, e2, k2) = ran-bind (confirm_stopped w ts) _ p1 b past' k1 in
    let (x, p3, e3, k3) = ran-bind (find_executor w (keys ts)) _ p2 b past' k2 in
    let (altered, p4, e4, k4) = ran-bind (alter_if w x q) _ p3 b past' k3 in
    let (verified, p5, e5, k5) = ran-bind (verify_tables w x q) _ p4 b past' k4 in
    let (v, p6, e6, k6) = ran-bind (scale_all w ts) _ p5 b past' k5 in
    let (resumed, p7, e7, k7) = ran-bind (confirm_resumed w ts) _ p6 b past' k6 in
    let (filled, p8, e8, k8) = ran-bind (backfill_if w x q) _ p7 b past' k7 in
    let stopped : changes p3 ≡ issued (scales (to_zero ts)) (changes past) =
      quiet_ran _ p2 x p3 (find_executor-IsQuiet w (keys ts)) e3
      ∙ (quiet_ran _ p1 s p2 (confirm_stopped-IsQuiet w ts) e2
          ∙ scale_all-changes w (to_zero ts) past u p1 h e1) in
    let resumed_at : changes p7 ≡ issued (scales ts) (issued (alters_if x q) (changes p3)) =
      quiet_ran _ p6 resumed p7 (confirm_resumed-IsQuiet w ts) e7
      ∙ (scale_all-changes w ts p5 v p6 h e6
          ∙ ap (issued (scales ts)) (
              quiet_ran _ p4 verified p5 (verify_tables-IsQuiet w x q) e5
              ∙ alter_if-changes w x q p3 altered p4 h e4)) in
    let whole : changes p7
        ≡ issued (scales (to_zero ts) ++ (alters_if x q ++ scales ts)) (changes past) =
      resumed_at
      ∙ (ap (λ p. issued (scales ts) (issued (alters_if x q) p)) stopped
          ∙ (sym (issued-append (alters_if x q) (scales ts) _)
              ∙ sym (
                  issued-append (scales (to_zero ts)) (alters_if x q ++ scales ts)
                    (changes past)))) in
    (
      x,
      subst (λ p. IsFilled q x p (changes past')) whole
          (subst (λ p. IsFilled q x (changes p7) (changes p)) (ap (λ r. r.1) e8 ∙ ap (λ r. r.1) k8)
            (backfill_if-IsFilled w x q p7)),
    )
