-- ===== src/Replication/Deployments/Waiting.antt =====
-- Waiting for a Deployment ends in time (scripts/ddl_apply.py).
use stardatadblabs.Base.{
  ℕ, zero, suc, ◌+◌, ◌≤◌, ◌<◌, ◌≡◌, refl, sym, ap, ◌⊎◌, inl, inr, Text, Bool, true, false, not,
  ◌&&◌, Option, none, some, List, ◌∷◌, ◌==◌, ltb, arith, if◌then◌else◌,
}
use mathlib.Core.Path.{subst}
use stardatadblabs.Base.Lines.{strip}
use stardatadblabs.Replication.Trace.{kubectl-past}
use stardatadblabs.Replication.Shell.{
  Command, get_deployment, DeployField, ready_replicas, total_replicas, sleep, Completed, World,
  Result, ok, raised, process_failed, Script, pure, go_on, ◌>>=◌, raise_if, or_raise,
  subprocess_run, kubectl, time,
}
use stardatadblabs.Replication.Deployments.{
  field, after_check, round, poll_until, poll_s, wait_for, is_stopped, is_started, start_timeout_s,
  wait_fully_started,
}

-- The clock does not go back while a command runs, and a sleep takes its time.
pub record KeepsTime (w : World) : Type 0 where
  pub forward : (c : Command) (past : List Command) → w.clock past ≤ w.clock (c ∷ past)
  pub sleeps : (s : ℕ) (past : List Command) → w.clock past + s ≤ w.clock (sleep s ∷ past)

-- A list of commands that goes on from another.
pub data Extends (past : List Command) : List Command → Type 0 where
  same : Extends past past
  more : {past' : List Command} (c : Command) → Extends past past' → Extends past (c ∷ past')

pub Extends-clock :
    (w : World) {past past' : List Command}
    → KeepsTime w
    → Extends past past'
    → w.clock past ≤ w.clock past'
Extends-clock w k same = omega arith
Extends-clock w k (more c x) = omega (arith, Extends-clock w k x, k.forward c _)

pub Extends-trans : {a b c : List Command} → Extends a b → Extends b c → Extends a c
Extends-trans x same = x
Extends-trans x (more c y) = more c (Extends-trans x y)

-- A script whose commands are added to those before it, and that fails only where a process fails.
pub record IsProbe {A : Type 0} (m : Script A) : Type 0 where
  pub extends : (past : List Command) → Extends past (m past).1
  pub answers :
      (past : List Command) → ((a : A) × ((m past).0 ≡ ok a)) ⊎ ((m past).0 ≡ raised process_failed)

pure-IsProbe : {A : Type 0} (a : A) → IsProbe (pure a)
pure-IsProbe a = record { extends = λ past. same; answers = λ past. inl (a, refl) }

module _ {A B : Type 0} where
  go_on-Extends :
      (f : A → Script B) (r : Result A) (mid : List Command)
      → ((a : A) → IsProbe (f a))
      → Extends mid (go_on f r mid).1
  go_on-Extends f (ok a) mid p = (p a).extends mid
  go_on-Extends f (raised e) mid p = same

  go_on_answers :
      (f : A → Script B) (r : Result A) (mid : List Command)
      → ((a : A) → IsProbe (f a))
      → ((a : A) × (r ≡ ok a)) ⊎ (r ≡ raised process_failed)
      → ((b : B) × ((go_on f r mid).0 ≡ ok b)) ⊎ ((go_on f r mid).0 ≡ raised process_failed)
  go_on_answers f (ok a) mid p h = (p a).answers mid
  go_on_answers f (raised e) mid p (inl (a, k)) = absurd (cc k)
  go_on_answers f (raised e) mid p (inr k) = inr (ap failure_of k)
    where
      failure_of : Result A → Result B
      failure_of (ok a) = raised process_failed
      failure_of (raised x) = raised x

  bind-IsProbe :
      (m : Script A) (f : A → Script B) → IsProbe m → ((a : A) → IsProbe (f a)) → IsProbe (m >>= f)
  bind-IsProbe m f p q = record {
    extends = λ past. Extends-trans (p.extends past) (go_on-Extends f (m past).0 (m past).1 q);
    answers = λ past. go_on_answers f (m past).0 (m past).1 q (p.answers past);
  }

kubectl_answers :
    (o : Option Completed) (past : List Command)
    → let r : Result Text =
        ((or_raise o process_failed >>= λ (c : Completed).
        raise_if (false && not (c.code == 0)) process_failed >>= λ _. pure (strip c.out))
          past).0 in
      ((t : Text) × (r ≡ ok t)) ⊎ (r ≡ raised process_failed)
kubectl_answers none past = inr refl
kubectl_answers (some c) past = inl (strip c.out, refl)

field-IsProbe : (w : World) (f : DeployField) (d : Text) → IsProbe (field w f d)
unfolding kubectl subprocess_run
field-IsProbe w f d = record {
  extends = λ past.
      subst (Extends past) (sym (kubectl-past w false (get_deployment f d) past))
        (more (get_deployment f d) same);
  answers =
      λ past. kubectl_answers (w.respond past (get_deployment f d)) (get_deployment f d ∷ past);
}

-- How waiting ends: true where the check held before the deadline, false when the deadline is over, or
-- with the failure of a process.
abbrev pub IsWaited : World → Script Bool → ℕ → List Command → Result Bool × List Command → Type 0
IsWaited w check deadline past (r, past') =
    ((r ≡ ok true)
      × (p : List Command) × Extends past p
      × (w.clock p < deadline)
      × (check p ≡ (ok true, past')))
    ⊎ ((r ≡ ok false) × Extends past past' × (deadline ≤ w.clock past'))
    ⊎ ((r ≡ raised process_failed)
        × (p : List Command) × Extends past p
        × (check p ≡ (raised process_failed, past')))

module _ (w : World) (check : Script Bool) (deadline : ℕ) where
  IsWaited-earlier :
      {a b : List Command} (o : Result Bool × List Command)
      → Extends a b
      → IsWaited w check deadline b o
      → IsWaited w check deadline a o
  IsWaited-earlier (r, past') x (inl (e, p, y, t, c)) = inl (e, p, Extends-trans x y, t, c)
  IsWaited-earlier (r, past') x (inr (inl (e, y, t))) = inr (inl (e, Extends-trans x y, t))
  IsWaited-earlier (r, past') x (inr (inr (e, p, y, c))) = inr (inr (e, p, Extends-trans x y, c))

  -- A round, from what the check answers.
  round_of :
      (n : ℕ) (rest : Script Bool) (past mid : List Command) (r : Result Bool)
      → check past ≡ (r, mid)
      → ((b : Bool) × (r ≡ ok b)) ⊎ (r ≡ raised process_failed)
      → Extends past mid
      → w.clock past < deadline
      → IsWaited w check deadline (sleep n ∷ mid) (rest (sleep n ∷ mid))
      → IsWaited w check deadline past (go_on (after_check n rest) r mid)
  round_of n rest past mid (ok true) c a x t h = inl (refl, past, same, t, c)
  round_of n rest past mid (ok false) c a x t h =
      IsWaited-earlier (rest (sleep n ∷ mid)) (more (sleep n) x) h
  round_of n rest past mid (raised process_failed) c a x t h = inr (inr (refl, past, same, c))
  round_of n rest past mid (raised e) c (inl (b, k)) x t h = absurd (cc k)
  round_of n rest past mid (raised e) c (inr k) x t h = absurd (cc k)

  round-IsWaited :
      (n : ℕ) (rest : Script Bool) (past : List Command) (b : Bool)
      → IsProbe check
      → ltb (w.clock past) deadline ≡ b
      → (w.clock past < deadline
          → (mid : List Command) → Extends past mid
          → IsWaited w check deadline (sleep n ∷ mid) (rest (sleep n ∷ mid)))
      → IsWaited w check deadline past (round check n rest b past)
  round-IsWaited n rest past true p e h =
      round_of n rest past (check past).1 (check past).0 refl (p.answers past) (p.extends past)
        (ground arith) (h (ground arith) (check past).1 (p.extends past))
  round-IsWaited n rest past false p e h = inr (inl (refl, same, ground arith))

  poll_until-IsWaited :
      (n rounds : ℕ) (past : List Command)
      → KeepsTime w
      → IsProbe check
      → 0 < n
      → 0 < rounds
      → deadline < w.clock past + rounds
      → IsWaited w check deadline past (poll_until w check n deadline rounds past)
  unfolding poll_until
  poll_until-IsWaited n zero past k p pos some_left h = absurd (omega arith)
  poll_until-IsWaited n (suc rounds) past k p pos some_left h =
      round-IsWaited n (poll_until w check n deadline rounds) past _ p refl λ t mid x.
        let later : w.clock past ≤ w.clock mid = Extends-clock w k x in
        let slept : w.clock mid + n ≤ w.clock (sleep n ∷ mid) = k.sleeps n mid in
        poll_until-IsWaited n rounds (sleep n ∷ mid) k p pos (omega arith) (omega arith)

-- The check of a round, for both loops.
pub is_stopped-IsProbe : (w : World) (d : Text) → IsProbe (is_stopped w d)
unfolding is_stopped
is_stopped-IsProbe w d =
    bind-IsProbe _ _ (field-IsProbe w ready_replicas d)
      λ ready. bind-IsProbe _ _ (field-IsProbe w total_replicas d) λ total. pure-IsProbe _

is_started-IsProbe : (w : World) (d : Text) → IsProbe (is_started w d)
unfolding is_started
is_started-IsProbe w d = bind-IsProbe _ _ (field-IsProbe w ready_replicas d) λ ready. pure-IsProbe _

pub wait_for-IsWaited :
    (w : World) (check : Script Bool) (t : ℕ) (past : List Command)
    → w.dry_run ≡ false
    → KeepsTime w
    → IsProbe check
    → IsWaited w check (w.clock past + t) past (wait_for w check t past)
unfolding wait_for
wait_for-IsWaited w check t past dry k p = by_dry_run w.dry_run dry
  where
    by_dry_run :
        (b : Bool)
        → b ≡ false
        → IsWaited w check (w.clock past + t) past (
            (if b
                then pure true
                else (do start ← time w; poll_until w check poll_s (start + t) (suc t)))
              past)
    by_dry_run true e = absurd (cc e)
    by_dry_run false e =
        poll_until-IsWaited w check (w.clock past + t) poll_s (suc t) past k p (omega arith)
          (omega arith) (omega arith)

-- Waiting for a Deployment to start ends, where it has a ready replica.
pub wait_fully_started-IsWaited :
    (w : World) (d : Text) (past : List Command)
    → w.dry_run ≡ false
    → KeepsTime w
    → IsWaited w
        (is_started w d)
        (w.clock past + start_timeout_s)
        past
        (wait_fully_started w d past)
unfolding wait_fully_started
wait_fully_started-IsWaited w d past dry k =
    wait_for-IsWaited w (is_started w d) start_timeout_s past dry k (is_started-IsProbe w d)
