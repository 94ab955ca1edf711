-- ===== src/Cluster/Monitor.antt =====
-- The monitor that cordons and uncordons nodes (scripts/node-pressure-monitor.py). The API server is a
-- parameter: the pods of a node, and which patches it refuses.
pub mod Settled
use stardatadblabs.Base.{
  ℕ, ◌+◌, ◌*◌, leb, ltb, Text, codes, text_eq, contains, Bool, true, false, not, ◌&&◌, ◌||◌, Option,
  none, some, List, [], ◌∷◌, any, keep, if◌then◌else◌,
}
use stardatadblabs.Base.Dict.{Dict, lookup}
use stardatadblabs.Cluster.Quantity.{Float, parse_cpu_to_millicores, parse_memory_to_bytes}

-- A node, with the keys of its labels and taints. Whether it is unschedulable is in `Flags`.
pub record Node : Type 0 where
  pub name : Text
  pub labels : List Text
  pub taints : List Text
  pub allocatable : Dict Text

-- `spec.unschedulable` of every node.
abbrev pub Flags : Type 0
Flags = Text → Bool

-- The requests of the containers of a pod; none where a container has none.
abbrev pub Pod : Type 0
Pod = List (Option (Dict Text))

-- `pods_on` is the list of the pods of a node that neither failed nor succeeded, none where the call
-- raises. A patch of a node in `refuses` raises an ApiException. Thresholds are in percent.
pub record Api : Type 0 where
  pub float : Float
  pub pods_on : Text → Option (List Pod)
  pub refuses : Text → Bool
  pub cpu_threshold : ℕ
  pub mem_threshold : ℕ

abbrev control_plane : Text
control_plane = codes "node-role.kubernetes.io/control-plane"

abbrev master : Text
master = codes "node-role.kubernetes.io/master"

abbrev reserved : Text → Bool
reserved key = text_eq key control_plane || text_eq key master

unfoldable pub is_worker : Node → Bool
unfolding text_eq
is_worker n =
    not (contains n.labels control_plane || (contains n.labels master || any reserved n.taints))

abbrev pub add_quantity : Option ℕ → Option ℕ → Option ℕ
add_quantity none b = none
add_quantity (some a) none = none
add_quantity (some a) (some b) = some (a + b)

-- A resource that a container requests, and nothing where it does not.
abbrev requested : (Text → Option ℕ) → Option Text → Option ℕ
requested parse none = some 0
requested parse (some value) = parse value

abbrev container_request : Text → (Text → Option ℕ) → Option (Dict Text) → Option ℕ
container_request key parse none = some 0
container_request key parse (some req) = requested parse (lookup key req)

unfoldable pub pod_request : Text → (Text → Option ℕ) → Pod → Option ℕ
unfolding lookup
pod_request key parse [] = some 0
pod_request key parse (c ∷ cs) =
    add_quantity (container_request key parse c) (pod_request key parse cs)

-- The sum over the pods of a node.
unfoldable pub total_request : Text → (Text → Option ℕ) → List Pod → Option ℕ
unfolding pod_request
total_request key parse [] = some 0
total_request key parse (p ∷ ps) =
    add_quantity (pod_request key parse p) (total_request key parse ps)

-- `req / alloc * 100 >= threshold`, where the percentage counts as 0 without anything to allocate.
abbrev pub reaches : ℕ → ℕ → ℕ → Bool
reaches threshold alloc req =
    if ltb 0 alloc then leb (threshold * alloc) (req * 100) else leb threshold 0

abbrev or_zero : Option Text → Text
or_zero none = codes "0"
or_zero (some value) = value

abbrev pub over_of : Api → Option ℕ → Option ℕ → Option ℕ → Option ℕ → Option Bool
over_of api (some alloc_cpu) (some alloc_mem) (some req_cpu) (some req_mem) =
    some
      (reaches api.cpu_threshold alloc_cpu req_cpu || reaches api.mem_threshold alloc_mem req_mem)
over_of api _ _ _ _ = none

abbrev over_pods : Api → Node → Option (List Pod) → Option Bool
over_pods api n none = none
over_pods api n (some pods) =
    over_of api (parse_cpu_to_millicores api.float (or_zero (lookup (codes "cpu") n.allocatable)))
      (parse_memory_to_bytes api.float (or_zero (lookup (codes "memory") n.allocatable)))
      (total_request (codes "cpu") (parse_cpu_to_millicores api.float) pods)
      (total_request (codes "memory") (parse_memory_to_bytes api.float) pods)

-- Whether a node is over a threshold, and none where reading it raises.
unfoldable pub over_threshold : Api → Node → Option Bool
unfolding parse_cpu_to_millicores parse_memory_to_bytes total_request lookup
over_threshold api n = over_pods api n (api.pods_on n.name)

-- `api.patch_node`
unfoldable pub patch_node : Api → Text → Bool → Flags → Flags
unfolding text_eq
patch_node api name b flags =
    if api.refuses name then flags else λ k. if text_eq name k then b else flags k

-- The node is cordoned over the threshold and uncordoned otherwise, where it is not so already.
unfoldable pub settle : Api → Node → Bool → Bool → Flags → Flags
unfolding patch_node
settle api n over cordoned flags =
    if over && not cordoned
    then patch_node api n.name true flags
    else if not over && cordoned
    then patch_node api n.name false flags
    else flags

-- What is left of a poll after an error of reading: nothing.
abbrev pub if_read : Option Bool → (Bool → Bool × Flags) → Flags → Bool × Flags
if_read none go flags = (false, flags)
if_read (some over) go flags = go over

-- The loop of `poll` over the workers, with the flags at its start; false where it raises.
unfoldable pub poll_workers : Api → Flags → List Node → Flags → Bool × Flags
unfolding over_threshold settle
poll_workers api listed [] flags = (true, flags)
poll_workers api listed (n ∷ nodes) flags =
    if_read (over_threshold api n)
      (λ over. poll_workers api listed nodes (settle api n over (listed n.name) flags)) flags

unfoldable pub poll : Api → List Node → Flags → Bool × Flags
unfolding is_worker poll_workers
poll api nodes flags = poll_workers api flags (keep is_worker nodes) flags
