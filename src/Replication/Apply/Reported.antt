-- ===== src/Replication/Apply/Reported.antt =====
-- A DDL run that returns true, from its steps (scripts/ddl_apply.py).
use stardatadblabs.Base.{
  ◌≡◌, refl, sym, ap, ◌∙◌, ◌⊎◌, inl, inr, Bool, true, false, not, ◌&&◌, ◌||◌, List, [],
  if◌then◌else◌,
}
use stardatadblabs.Base.Dict.{keys}
use stardatadblabs.Replication.Shell.{Command, World, ok, pure}
use stardatadblabs.Replication.Deployments.{is_empty}
use stardatadblabs.Replication.Targets.{
  Request, Targets, target_deploys, scale_all, to_zero, confirm_stopped,
}
use stardatadblabs.Replication.Executor.{Executor, find_executor}
use stardatadblabs.Replication.Apply.{
  alter_tables, alter_if, verify_modes, verify_tables, backfill_if, confirm_resumed, run_steps,
  no_targets, apply_ddl,
}
use stardatadblabs.Replication.Apply.Success.{
  IsAltered, AreShown, returned, end_of, ran_to, alter_tables-IsAltered, verify_modes-AreShown,
}
use stardatadblabs.Replication.Trace.{ran-bind}

-- What a run that reports success went through from one history to another: its targets were found
-- and scaled to zero, a pod was found, the statements of the modes were made in it, then the tables
-- were shown, unless there is no pod or there are no Spark flags, the targets were scaled back, and
-- the backfill returned true.
abbrev pub IsSuccess : World → Request → List Command → List Command → Type 0
IsSuccess w q past past' =
    (ts : Targets) × (x : Executor) × (stopped : Bool) × (resumed : Bool) × (p0 : List Command)
    × (p1 : List Command) × (p2 : List Command) × (p3 : List Command) × (p4 : List Command)
    × (p5 : List Command) × (p6 : List Command) × (p7 : List Command) × (target_deploys w q.source
          q.modes [] past
        ≡ (ok ts, p0))
    × (scale_all w (to_zero ts) p0 ≡ (ok tt, p1))
    × (confirm_stopped w ts p1 ≡ (ok stopped, p2))
    × (find_executor w (keys ts) p2 ≡ (ok x, p3))
    × (x.all_ok ≡ true)
    × IsAltered w x q q.modes p3 p4
    × (((is_empty x.pod || is_empty x.conf ≡ true) × (p5 ≡ p4)) ⊎ AreShown w x q q.modes p4 p5)
    × (scale_all w ts p5 ≡ (ok tt, p6))
    × (confirm_resumed w ts p6 ≡ (ok resumed, p7))
    × (backfill_if w x q p7 ≡ (ok true, past'))

alter_if-IsAltered :
    (c : Bool) (w : World) (x : Executor) (q : Request) (past past' : List Command)
    → w.dry_run ≡ false
    → c ≡ true
    → (if c then alter_tables w x q q.modes else pure false) past ≡ (ok true, past')
    → IsAltered w x q q.modes past past'
alter_if-IsAltered true w x q past past' h t e = alter_tables-IsAltered w x q q.modes past past' h e
alter_if-IsAltered false w x q past past' h t e = cc

verify_tables-AreShown :
    (dry c : Bool) (w : World) (x : Executor) (q : Request) (past past' : List Command)
    → dry ≡ false
    → (if dry || c then pure true else verify_modes w x q q.modes) past ≡ (ok true, past')
    → ((c ≡ true) × (past' ≡ past)) ⊎ AreShown w x q q.modes past past'
verify_tables-AreShown true c w x q past past' h e = absurd (cc h)
verify_tables-AreShown false true w x q past past' h e = inl (refl, sym (ap (λ p. p.1) e))
verify_tables-AreShown false false w x q past past' h e =
    inr (verify_modes-AreShown w x q q.modes past past' e)

all_true :
    (a b c d : Bool)
    → a && (b && (c && d)) ≡ true
    → (a ≡ true) × (b ≡ true) × (c ≡ true) × (d ≡ true)
all_true true true true true h = (refl, refl, refl, refl)
all_true true true true false h = absurd (cc h)
all_true true true false d h = absurd (cc h)
all_true true false c d h = absurd (cc h)
all_true false b c d h = absurd (cc h)

run_steps-IsSuccess :
    (w : World) (q : Request) (ts : Targets) (past p0 past' : List Command)
    → w.dry_run ≡ false
    → target_deploys w q.source q.modes [] past ≡ (ok ts, p0)
    → run_steps w q ts p0 ≡ (ok true, past')
    → IsSuccess w q past past'
unfolding run_steps
run_steps-IsSuccess w q ts past p0 past' h e0 e =
    let (u, p1, e1, k1) = ran-bind (scale_all w (to_zero ts)) _ p0 true past' e in
    let (s, p2, e2, k2) = ran-bind (confirm_stopped w ts) _ p1 true past' k1 in
    let (x, p3, e3, k3) = ran-bind (find_executor w (keys ts)) _ p2 true past' k2 in
    let (altered, p4, e4, k4) = ran-bind (alter_if w x q) _ p3 true past' k3 in
    let (verified, p5, e5, k5) = ran-bind (verify_tables w x q) _ p4 true past' k4 in
    let (v, p6, e6, k6) = ran-bind (scale_all w ts) _ p5 true past' k5 in
    let (resumed, p7, e7, k7) = ran-bind (confirm_resumed w ts) _ p6 true past' k6 in
    let (filled, p8, e8, k8) = ran-bind (backfill_if w x q) _ p7 true past' k7 in
    let (ready, second, third, fourth) =
      all_true x.all_ok altered verified filled (returned _ true p8 past' k8) in
    (
      ts,
      x,
      s,
      resumed,
      p0,
      p1,
      p2,
      p3,
      p4,
      p5,
      p6,
      p7,
      e0,
      e1,
      e2,
      e3,
      ready,
      alter_if-IsAltered x.all_ok w x q p3 p4 h ready (e4 ∙ ap (λ b. (ok b, p4)) second),
      verify_tables-AreShown w.dry_run (is_empty x.pod || is_empty x.conf) w x q p4 p5 h
          (e5 ∙ ap (λ b. (ok b, p5)) third),
      e6,
      e7,
      ran_to filled true p8 past' e8 fourth (end_of _ true p8 past' k8),
    )

-- If a run that is not dry returns true, it went through all its steps one after the other: it found
-- its targets, scaled them to zero and found a pod; there the statement of every mode ran and left
-- with exit code 0 or with an error of an earlier application; unless there are no Spark flags every
-- table was then described, with the added or new column in the text and without the dropped or old
-- one, of which a modified type asks nothing and which the text of a failed description without
-- output satisfies for a dropped one; the targets were scaled back and the backfill returned true.
pub apply_ddl-IsSuccess :
    (w : World) (q : Request) (past past' : List Command)
    → w.dry_run ≡ false
    → apply_ddl w q past ≡ (ok true, past')
    → IsSuccess w q past past'
unfolding apply_ddl
apply_ddl-IsSuccess w q past past' h e =
    let (ts, mid, e1, k1) = ran-bind (target_deploys w q.source q.modes []) _ past true past' e in
    by_targets (no_targets ts && not w.dry_run) ts mid e1 k1
  where
    by_targets :
        (c : Bool) (ts : Targets) (mid : List Command)
        → target_deploys w q.source q.modes [] past ≡ (ok ts, mid)
        → (if c then pure false else run_steps w q ts) mid ≡ (ok true, past')
        → IsSuccess w q past past'
    by_targets true ts mid e1 k = cc (ap (λ p. p.0) k)
    by_targets false ts mid e1 k = run_steps-IsSuccess w q ts past mid past' h e1 k
