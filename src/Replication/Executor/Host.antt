-- ===== src/Replication/Executor/Host.antt =====
-- The pod that runs the statements of a DDL run (scripts/ddl_apply.py).
use stardatadblabs.Base.{
  ◌≡◌, refl, sym, ap, ◌∙◌, ◌≤◌, leb, ◌⊎◌, inl, inr, Text, contains, Bool, true, false, ◌&&◌, List,
  [], ◌∷◌, In, arith, if◌then◌else◌,
}
use stardatadblabs.Base.Numerals.{is_numeral, int_or}
use stardatadblabs.Replication.Shell.{
  Command, ready_replicas, get_first_pod, World, ok, Script, pure, ◌>>=◌, kubectl,
}
use stardatadblabs.Replication.Deployments.{is_empty, field, deployment_exists}
use stardatadblabs.Replication.Executor.{else_next, pod_if_ready, pod_if_there, search_pod}
use stardatadblabs.Replication.Trace.{ran-bind}

-- A Deployment of the list that is not excluded has a ready replica, and the pod is the first running
-- pod of the whole pipeline.
abbrev pub IsHosted : World → List Text → List Text → Text → List Command → Type 0
IsHosted w excluded deploys pod past' =
    (d : Text) × In d deploys
    × (contains excluded d ≡ false)
    × (p : List Command) × (ready : Text) × ((field w ready_replicas d p).0 ≡ ok ready)
    × (1 ≤ int_or 0 ready)
    × (p' : List Command) × (kubectl w false get_first_pod p' ≡ (ok pod, past'))
    × (is_empty pod ≡ false)

-- A script returned the pod.
abbrev Returns : Script Text → Text → List Command → Type 0
Returns m pod past' = (p : List Command) × (m p ≡ (ok pod, past'))

-- The first running pod, or the search goes on.
first_or_rest :
    (b : Bool) (rest : Script Text) (t pod : Text) (p past' : List Command)
    → is_empty t ≡ b
    → (if b then rest else pure t) p ≡ (ok pod, past')
    → Returns rest pod past' ⊎ ((t ≡ pod) × (p ≡ past') × (is_empty pod ≡ false))
first_or_rest true rest t pod p past' k h = inl (p, h)
first_or_rest false rest t pod p past' k h =
    let e : t ≡ pod = cc (ap (λ r. r.0) h) in inr (e, ap (λ r. r.1) h, sym (ap is_empty e) ∙ k)

abbrev FirstPod : World → Text → List Command → Type 0
FirstPod w pod past' =
    (p : List Command) × (kubectl w false get_first_pod p ≡ (ok pod, past'))
    × (is_empty pod ≡ false)

if_ready :
    (b : Bool) (w : World) (rest : Script Text) (pod : Text) (p past' : List Command)
    → (if b then (do t ← kubectl w false get_first_pod; else_next rest t) else rest) p
      ≡ (ok pod, past')
    → Returns rest pod past' ⊎ ((b ≡ true) × FirstPod w pod past')
if_ready false w rest pod p past' h = inl (p, h)
if_ready true w rest pod p past' h =
    let (t, mid, e, k) = ran-bind (kubectl w false get_first_pod) (else_next rest) p pod past' h in
    elim (first_or_rest (is_empty t) rest t pod mid past' refl k) [
      | inl found ↦ inl found
      | inr (same, last, full) ↦
          inr (refl, (p, e ∙ (ap (λ u. (ok u, mid)) same ∙ ap (λ l. (ok pod, l)) last), full))
    ]

if_there :
    (b : Bool) (w : World) (rest : Script Text) (d pod : Text) (p past' : List Command)
    → pod_if_there w rest d b p ≡ (ok pod, past')
    → Returns rest pod past'
      ⊎ ((q : List Command) × (ready : Text) × ((field w ready_replicas d q).0 ≡ ok ready)
          × (1 ≤ int_or 0 ready)
          × FirstPod w pod past')
if_there false w rest d pod p past' h = inl (p, h)
if_there true w rest d pod p past' h =
    let (ready, mid, e, k) =
      ran-bind (field w ready_replicas d) (pod_if_ready w rest) p pod past' h in
    elim (if_ready (is_numeral ready && leb 1 (int_or 0 ready)) w rest pod mid past' k) [
      | inl found ↦ inl found
      | inr (both, first) ↦ inr (p, ready, ap (λ r. r.0) e, ground arith, first)
    ]

IsHosted-later :
    (w : World) (excluded deploys : List Text) (d pod : Text) (past' : List Command)
    → IsHosted w excluded deploys pod past'
    → IsHosted w excluded (d ∷ deploys) pod past'
IsHosted-later w excluded deploys d pod past' (d', m, x, p, r, a, n, p', c, f) =
    (d', inr m, x, p, r, a, n, p', c, f)

-- The pod that a search returns is the first running pod of the whole pipeline, asked for because a
-- Deployment that is not excluded has a ready replica.
pub search_pod-IsHosted :
    (w : World) (excluded deploys : List Text) (past : List Command) (pod : Text)
    (past' : List Command)
    → search_pod w excluded deploys past ≡ (ok pod, past')
    → IsHosted w excluded deploys pod past'
unfolding search_pod
search_pod-IsHosted w excluded [] past pod past' h = cc (ap (λ r. r.0) h)
search_pod-IsHosted w excluded (d ∷ ds) past pod past' h =
    by_exclusion (contains excluded d) refl h (search_pod-IsHosted w excluded ds)
  where
    by_exclusion :
        (b : Bool)
        → contains excluded d ≡ b
        → (if b then search_pod w excluded ds else (do
          there ← deployment_exists w d
          pod_if_there w (search_pod w excluded ds) d there))
            past
          ≡ (ok pod, past')
        → ((past : List Command) (pod : Text) (past' : List Command)
            → search_pod w excluded ds past ≡ (ok pod, past')
            → IsHosted w excluded ds pod past')
        → IsHosted w excluded (d ∷ ds) pod past'
    by_exclusion true e k ih = IsHosted-later w excluded ds d pod past' (ih past pod past' k)
    by_exclusion false e k ih =
        let (there, mid, e1, k1) = ran-bind (deployment_exists w d) _ past pod past' k in
        elim (if_there there w (search_pod w excluded ds) d pod mid past' k1) [
          | inl (p, found) ↦ IsHosted-later w excluded ds d pod past' (ih p pod past' found)
          | inr (p, ready, answer, positive, (p', c, f)) ↦
              (d, inl refl, e, p, ready, answer, positive, p', c, f)
        ]
