-- ===== src/Replication/Deployments/Stopping.antt =====
-- Waiting for a Deployment to stop, and what the answer says (scripts/ddl_apply.py).
use stardatadblabs.Base.{
  ℕ, ◌+◌, ◌≤◌, ◌<◌, ◌≡◌, refl, sym, ap, ◌∙◌, ◌⊎◌, inl, inr, Text, Bool, true, false, not, ◌&&◌,
  Option, none, some, List, ◌∷◌, ◌==◌, arith,
}
use stardatadblabs.Base.Lines.{strip}
use stardatadblabs.Base.Numerals.{int_or}
use stardatadblabs.Replication.Trace.{ran-bind}
use stardatadblabs.Replication.Shell.{
  Command, get_deployment, DeployField, ready_replicas, total_replicas, Completed, World, Result,
  ok, raised, process_failed, pure, ◌>>=◌, raise_if, or_raise, subprocess_run, kubectl,
}
use stardatadblabs.Replication.Deployments.{field, is_stopped, stop_timeout_s, wait_fully_stopped}
use stardatadblabs.Replication.Deployments.Waiting.{
  KeepsTime, Extends, IsWaited, is_stopped-IsProbe, wait_for-IsWaited,
}

-- What kubectl prints for both counts of replicas is read as 0, as nothing at all is.
abbrev pub HasNoReplica : World → Text → List Command → List Command → Type 0
HasNoReplica w d p past' =
    (ready : Completed) × (total : Completed) × (w.respond p (get_deployment ready_replicas d)
      ≡ some ready)
    × (w.respond (get_deployment ready_replicas d ∷ p) (get_deployment total_replicas d)
        ≡ some total)
    × (int_or 0 (strip ready.out) ≡ 0)
    × (int_or 0 (strip total.out) ≡ 0)
    × (past' ≡ get_deployment total_replicas d ∷ get_deployment ready_replicas d ∷ p)

field-answered :
    (w : World) (f : DeployField) (d : Text) (past : List Command) (t : Text) (past' : List Command)
    → field w f d past ≡ (ok t, past')
    → (c : Completed) × (w.respond past (get_deployment f d) ≡ some c)
      × (t ≡ strip c.out)
      × (past' ≡ get_deployment f d ∷ past)
unfolding kubectl subprocess_run
field-answered w f d past t past' = by_answer (w.respond past (get_deployment f d)) refl
  where
    by_answer :
        (o : Option Completed)
        → w.respond past (get_deployment f d) ≡ o
        → (or_raise o process_failed >>= λ (c : Completed).
              raise_if (false && not (c.code == 0)) process_failed >>= λ _. pure (strip c.out))
            (get_deployment f d ∷ past)
          ≡ (ok t, past')
        → (c : Completed) × (o ≡ some c) × (t ≡ strip c.out) × (past' ≡ get_deployment f d ∷ past)
    by_answer none e k = absurd (cc (ap (λ r. r.0) k))
    by_answer (some c) e k = (c, refl, cc (ap (λ r. r.0) k), sym (ap (λ r. r.1) k))

is_stopped-HasNoReplica :
    (w : World) (d : Text) (past past' : List Command)
    → is_stopped w d past ≡ (ok true, past')
    → HasNoReplica w d past past'
unfolding is_stopped
is_stopped-HasNoReplica w d past past' e =
    let (r, p1, e1, k1) = ran-bind (field w ready_replicas d) _ past true past' e in
    let (t, p2, e2, k2) = ran-bind (field w total_replicas d) _ p1 true past' k1 in
    let (ready, answered, read, mid) = field-answered w ready_replicas d past r p1 e1 in
    let (total, answered', read', last) = field-answered w total_replicas d p1 t p2 e2 in
    let both : int_or 0 r == 0 && int_or 0 t == 0 ≡ true = cc (ap (λ x. x.0) k2) in
    (
      ready,
      total,
      answered,
      ap (λ p. w.respond p (get_deployment total_replicas d)) (sym mid) ∙ answered',
      ap (int_or 0) (sym read) ∙ ground (arith, both),
      ap (int_or 0) (sym read') ∙ ground (arith, both),
      sym (ap (λ x. x.1) k2) ∙ (last ∙ ap (λ p. get_deployment total_replicas d ∷ p) mid),
    )

-- How waiting for a Deployment to stop ends.
abbrev pub IsStopping : World → Text → ℕ → List Command → Result Bool × List Command → Type 0
IsStopping w d deadline past (r, past') =
    ((r ≡ ok true)
      × (p : List Command) × Extends past p
      × (w.clock p < deadline)
      × HasNoReplica w d p past')
    ⊎ ((r ≡ ok false) × Extends past past' × (deadline ≤ w.clock past'))
    ⊎ ((r ≡ raised process_failed)
        × (p : List Command) × Extends past p
        × (is_stopped w d p ≡ (raised process_failed, past')))

IsWaited-IsStopping :
    (w : World) (d : Text) (deadline : ℕ) (past : List Command) (o : Result Bool × List Command)
    → IsWaited w (is_stopped w d) deadline past o
    → IsStopping w d deadline past o
IsWaited-IsStopping w d deadline past (r, past') (inl (e, p, x, t, c)) =
    inl (e, p, x, t, is_stopped-HasNoReplica w d p past' c)
IsWaited-IsStopping w d deadline past (r, past') (inr (inl y)) = inr (inl y)
IsWaited-IsStopping w d deadline past (r, past') (inr (inr y)) = inr (inr y)

-- If the clock keeps the time, waiting for a Deployment to stop ends outside a dry run: with true if,
-- at a moment before the deadline, what kubectl printed for the ready replicas and for all replicas
-- was read as 0, as the empty output of a kubectl that fails is; with false after the deadline; or
-- with the failure of a process.
pub wait_fully_stopped-IsStopping :
    (w : World) (d : Text) (past : List Command)
    → w.dry_run ≡ false
    → KeepsTime w
    → IsStopping w d (w.clock past + stop_timeout_s) past (wait_fully_stopped w d past)
unfolding wait_fully_stopped
wait_fully_stopped-IsStopping w d past dry k =
    IsWaited-IsStopping w d (w.clock past + stop_timeout_s) past (wait_fully_stopped w d past)
      (wait_for-IsWaited w (is_stopped w d) stop_timeout_s past dry k (is_stopped-IsProbe w d))
