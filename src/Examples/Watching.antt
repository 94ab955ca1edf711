-- ===== src/Examples/Watching.antt =====
-- The theorems on polls of the cluster, on two workers and a control plane.
use stardatadblabs.Base.{
  ℕ, ◌*◌, ◌≡◌, ◌≢◌, refl, sym, ap, ◌∙◌, inl, inr, Text, codes, text_eq, true, false, Option, none,
  some, List, [], ◌∷◌, In, keep, if◌then◌else◌,
}
use stardatadblabs.Base.Dict.{Dict}
use stardatadblabs.Base.Numerals.{is_numeral, int_or}
use stardatadblabs.Cluster.Monitor.{Node, Flags, Pod, Api, is_worker, over_threshold, poll}
use stardatadblabs.Cluster.Monitor.Settled.{Named, poll-settled, poll-again}

abbrev four_cores : Dict Text
four_cores = (codes "cpu", codes "4") ∷ (codes "memory", codes "8Gi") ∷ []

abbrev node : Text → List Text → Node
node name labels = record { name = name; labels = labels; taints = []; allocatable = four_cores }

abbrev nodes : List Node
nodes =
    node (codes "main") (codes "node-role.kubernetes.io/control-plane" ∷ [])
    ∷ node (codes "busy") []
    ∷ node (codes "idle") []
    ∷ []

abbrev busy_pods : List Pod
busy_pods = (some ((codes "cpu", codes "3500m") ∷ []) ∷ none ∷ []) ∷ []

abbrev read_float : Text → Option ℕ
read_float t = if is_numeral t then some (int_or 0 t * 1000) else none

abbrev api : Api
api = record {
  float = read_float;
  pods_on = λ name. if text_eq name (codes "busy") then some busy_pods else some [];
  refuses = λ name. false;
  cpu_threshold = 75;
  mem_threshold = 75;
}

-- An administrator has cordoned the idle node.
abbrev flags : Flags
flags name = text_eq name (codes "idle")

abbrev polled : Flags
polled = (poll api nodes flags).1

polled_flags :
    (polled (codes "busy") ≡ true)
    × (polled (codes "idle") ≡ false)
    × (polled (codes "main") ≡ false)
unfolding poll text_eq is_numeral int_or
polled_flags = (refl, refl, refl)

other_name : (m : Node) → In m (node (codes "idle") [] ∷ []) → m.name ≢ codes "busy"
unfolding text_eq
other_name m (inl q) e =
    let different : false ≡ true =
      ap (λ t. text_eq t (codes "busy")) (sym (ap (λ n. n.name) q) ∙ e) in
    cc different
other_name m (inr i) e = absurd i

two_names : Named (keep is_worker nodes)
unfolding is_worker text_eq
two_names = (λ m i e. other_name m i e, (λ m i. absurd i, tt))

poll-settled_example :
    ((n : Node)
      → In n nodes
      → is_worker n ≡ true
      → api.refuses n.name ≡ false
      → over_threshold api n ≡ some (polled n.name))
    × ((k : Text)
        → ((m : Node) → In m nodes → is_worker m ≡ true → m.name ≢ k)
        → polled k ≡ flags k)
unfolding poll text_eq is_numeral int_or
poll-settled_example = poll-settled api nodes flags two_names refl

poll-again_example : poll api nodes polled ≡ (true, polled)
unfolding poll text_eq is_numeral int_or
poll-again_example = poll-again api nodes flags two_names refl (λ n i work. refl)
