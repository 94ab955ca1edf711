-- ===== src/Cluster/Monitor/Settled.antt =====
-- What a poll leaves behind (scripts/node-pressure-monitor.py).
use stardatadblabs.Base.{
  ◌≡◌, ◌≢◌, refl, sym, ap, ◌∙◌, inl, inr, Text, text_eq_iff, Bool, true, false, Option, none, some,
  List, [], ◌∷◌, In, keep, keep-In, arith,
}
use stardatadblabs.Cluster.Monitor.{
  Node, Flags, Api, is_worker, over_threshold, patch_node, settle, if_read, poll_workers, poll,
}

-- The names of the nodes are distinct.
abbrev pub Named : List Node → Type 0
Named [] = Unit
Named (n ∷ nodes) = ((m : Node) → In m nodes → m.name ≢ n.name) × Named nodes

-- A node that does not have the name keeps its flag.
settle_other :
    (api : Api) (n : Node) (over cordoned : Bool) (flags : Flags) (k : Text)
    → k ≢ n.name
    → settle api n over cordoned flags k ≡ flags k
unfolding settle patch_node
settle_other api n over cordoned flags k h = ground (arith, text_eq_iff n.name k)

-- The node has the flag that is wanted.
settle_own :
    (api : Api) (n : Node) (over : Bool) (flags : Flags)
    → api.refuses n.name ≡ false
    → settle api n over (flags n.name) flags n.name ≡ over
unfolding settle patch_node
settle_own api n over flags h = ground (arith, text_eq_iff n.name n.name)

read_other :
    (o : Option Bool) (go : Bool → Bool × Flags) (flags : Flags) (k : Text)
    → ((over : Bool) → (go over).1 k ≡ flags k)
    → (if_read o go flags).1 k ≡ flags k
read_other none go flags k h = refl
read_other (some over) go flags k h = h over

-- A poll that does not raise read the node.
read_own :
    (P : Flags → Type 0) (o : Option Bool) (go : Bool → Bool × Flags) (flags : Flags)
    → (if_read o go flags).0 ≡ true
    → ((over : Bool) → o ≡ some over → (go over).0 ≡ true → P (go over).1)
    → P (if_read o go flags).1
read_own P none go flags r h = absurd (cc r)
read_own P (some over) go flags r h = h over refl r

-- A name that no worker of the list has keeps its flag, however the poll ends.
poll_workers_other :
    (api : Api) (listed : Flags) (nodes : List Node) (flags : Flags) (k : Text)
    → ((m : Node) → In m nodes → m.name ≢ k)
    → (poll_workers api listed nodes flags).1 k ≡ flags k
unfolding poll_workers
poll_workers_other api listed [] flags k h = refl
poll_workers_other api listed (n ∷ nodes) flags k h =
    read_other (over_threshold api n) _ flags k λ over.
      poll_workers_other api listed nodes (settle api n over (listed n.name) flags) k
        (λ m i. h m (inr i))
      ∙ settle_other api n over (listed n.name) flags k (λ e. h n (inl refl) (sym e))

-- After a poll that reads every worker, the flag of each says whether it is over a threshold.
poll_workers_own :
    (api : Api) (listed : Flags) (nodes : List Node) (flags : Flags)
    → Named nodes
    → ((m : Node) → In m nodes → flags m.name ≡ listed m.name)
    → (poll_workers api listed nodes flags).0 ≡ true
    → (n : Node) → In n nodes
    → api.refuses n.name ≡ false
    → over_threshold api n ≡ some ((poll_workers api listed nodes flags).1 n.name)
unfolding poll_workers
poll_workers_own api listed [] flags d h r n i a = absurd i
poll_workers_own api listed (m ∷ nodes) flags (new, d) h r n (inr later) a =
    read_own (λ f. over_threshold api n ≡ some (f n.name)) (over_threshold api m) _ flags r
      λ over e t.
        poll_workers_own api listed nodes (settle api m over (listed m.name) flags) d
          (λ p l. settle_other api m over (listed m.name) flags p.name (new p l) ∙ h p (inr l)) t n
          later a
poll_workers_own api listed (m ∷ nodes) flags (new, d) h r n (inl same) a =
    read_own (λ f. over_threshold api n ≡ some (f n.name)) (over_threshold api m) _ flags r
      λ over e t.
        let name : n.name ≡ m.name = ap (λ p. p.name) same in
        let kept : (poll_workers api listed nodes (settle api m over (listed m.name) flags)).1
              n.name
            ≡ settle api m over (listed m.name) flags n.name =
          poll_workers_other api listed nodes (settle api m over (listed m.name) flags) n.name
            (λ p l q. new p l (q ∙ name)) in
        let set : settle api m over (listed m.name) flags m.name ≡ over =
          ap (λ c. settle api m over c flags m.name) (sym (h m (inl refl)))
          ∙ settle_own api m over flags (ap api.refuses (sym name) ∙ a) in
        ap (over_threshold api) same
        ∙ (e ∙ ap some (sym (kept ∙ (ap (settle api m over (listed m.name) flags) name ∙ set))))

-- If the poll reads every worker and the names are distinct, every worker that the server lets patch is
-- unschedulable afterwards exactly if it is over a threshold, and every other node is as before.
pub poll-settled :
    (api : Api) (nodes : List Node) (flags : Flags)
    → Named (keep is_worker nodes)
    → (poll api nodes flags).0 ≡ true
    → ((n : Node)
        → In n nodes
        → is_worker n ≡ true
        → api.refuses n.name ≡ false
        → over_threshold api n ≡ some ((poll api nodes flags).1 n.name))
      × ((k : Text)
          → ((m : Node) → In m nodes → is_worker m ≡ true → m.name ≢ k)
          → (poll api nodes flags).1 k ≡ flags k)
unfolding poll
poll-settled api nodes flags d r = (
  λ n i work allowed.
      poll_workers_own api flags (keep is_worker nodes) flags d (λ m j. refl) r n
        ((keep-In is_worker n nodes).1 (i, work)) allowed,
  λ k h.
      poll_workers_other api flags (keep is_worker nodes) flags k
        (λ m j. let (i, work) = (keep-In is_worker m nodes).0 j in h m i work),
)

settle_same : (api : Api) (n : Node) (b : Bool) (flags : Flags) → settle api n b b flags ≡ flags
unfolding settle
settle_same api n true flags = refl
settle_same api n false flags = refl

poll_workers_again :
    (api : Api) (flags : Flags) (nodes : List Node)
    → ((n : Node) → In n nodes → over_threshold api n ≡ some (flags n.name))
    → poll_workers api flags nodes flags ≡ (true, flags)
unfolding poll_workers
poll_workers_again api flags [] h = refl
poll_workers_again api flags (n ∷ nodes) h =
    ap
      (λ o.
        if_read o (λ over. poll_workers api flags nodes (settle api n over (flags n.name) flags))
          flags)
      (h n (inl refl))
    ∙ (ap (poll_workers api flags nodes) (settle_same api n (flags n.name) flags)
        ∙ poll_workers_again api flags nodes (λ m i. h m (inr i)))

-- If the poll reads every worker, the names are distinct and the server refuses no patch of a worker, a
-- second poll with the same requests reads every worker and changes nothing.
pub poll-again :
    (api : Api) (nodes : List Node) (flags : Flags)
    → Named (keep is_worker nodes)
    → (poll api nodes flags).0 ≡ true
    → ((n : Node) → In n nodes → is_worker n ≡ true → api.refuses n.name ≡ false)
    → poll api nodes (poll api nodes flags).1 ≡ (true, (poll api nodes flags).1)
unfolding poll
poll-again api nodes flags d r allowed =
    poll_workers_again api (poll api nodes flags).1 (keep is_worker nodes) λ n j.
      let (i, work) = (keep-In is_worker n nodes).0 j in
      poll_workers_own api flags (keep is_worker nodes) flags d (λ m l. refl) r n j
        (allowed n i work)
