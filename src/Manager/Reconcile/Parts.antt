-- ===== src/Manager/Reconcile/Parts.antt =====
-- services/manager/internal/service/reconciliation.go: the parts of reconciliate that change a cluster
-- without planning a task for a difference. The loop over the counters runs over the entries of the
-- list, which stands for any order.
use claudie.Prelude.{
  ℕ, Bool, true, false, ◌&&◌, ◌||◌, List, [], ◌∷◌, Option, none, some, String, Dict, erase, ltb,
  i32_lt, i32_sub, str_eq, if◌then◌else◌, contains_func,
}
use claudie.Pools.{is_empty}
use claudie.Spec.{NodePool, PoolType, K8sCluster, LbCluster, Clusters, api_endpoint, has_api_role}
use claudie.Spec.Clear.{mutable_clusters, replace_clusters}
use claudie.Store.Convert.{PbTaskEvent}
use claudie.Manager.Credentials.{update_credentials}
use claudie.Store.States.{PbClusterState, pb_error}
use claudie.Manager.Reconcile.{ScheduleResult}

-- `isCurrentNil` and `isDesiredNil`
abbrev pub lacks_clusters : Option K8sCluster → List LbCluster → Bool
lacks_clusters none [] = true
lacks_clusters none (_ ∷ _) = false
lacks_clusters (some _) _ = false

unfoldable pub is_nil : Clusters → Bool
is_nil c = lacks_clusters c.k8s c.load_balancers

-- What a visit leaves: the cluster, its desired state, and the result for it.
abbrev pub Visit : Type 0
Visit = PbClusterState × Clusters × ScheduleResult

-- The first loadbalancer with the api role is marked; `none` where there is none.
unfoldable pub mark_lb : List LbCluster → Option (List LbCluster)
unfolding has_api_role
mark_lb [] = none
mark_lb (lb ∷ lbs) = elim (has_api_role lb) [
  | true ↦ some (record lb { used_api_endpoint = true } ∷ lbs)
  | false ↦ elim (mark_lb lbs) [ none ↦ none | some lbs' ↦ some (lb ∷ lbs') ]
]

-- `FirstControlNode(nps).NodeType = apiEndpoint`, by the nodes of the first nodepool; `none` where
-- there is no such node.
unfoldable pub mark_node : List NodePool → Option (List NodePool)
mark_node [] = none
mark_node (np ∷ nps) = elim (np.is_control) [
  | true ↦ elim (np.nodes) [
    | [] ↦ elim (mark_node nps) [ none ↦ none | some nps' ↦ some (np ∷ nps') ]
    | n ∷ ns ↦ some (record np { nodes = record n { node_type = api_endpoint } ∷ ns } ∷ nps)
  ]
  | false ↦ elim (mark_node nps) [ none ↦ none | some nps' ↦ some (np ∷ nps') ]
]

-- "Choose API endpoint."
unfoldable pub choose_endpoint : Clusters → Option Clusters
unfolding mark_lb mark_node
choose_endpoint d = elim (mark_lb d.load_balancers) [
  | some lbs ↦ some (record d { load_balancers = lbs })
  | none ↦ elim (d.k8s) [
    | none ↦ none
    | some k ↦ elim (mark_node k.cluster_info.node_pools) [
      | none ↦ none
      | some nps ↦ some (record d {
        k8s = some (record k { cluster_info = record (k.cluster_info) { node_pools = nps } });
      })
    ]
  ]
]

-- `dyn.AutoscalerConfig.TargetSize = dyn.Count`, where the nodepool is dynamic and autoscaled.
abbrev pub reset_type : PoolType → PoolType
reset_type (PoolType.dynamic d) = elim (d.autoscaler_config) [
  | none ↦ PoolType.dynamic d
  | some a ↦
      PoolType.dynamic (record d { autoscaler_config = some (record a { target_size = d.count }) })
]
reset_type t = t

unfoldable pub reset_target_size : String → List NodePool → List NodePool
reset_target_size name [] = []
reset_target_size name (np ∷ nps) =
    let rest = reset_target_size name nps in
    if str_eq np.name name then record np { type = reset_type np.type } ∷ nps else np ∷ rest

-- `counter > 0`, of an int64.
abbrev pub is_positive : ℕ → Bool
is_positive n = ltb 0 n && ltb n 9223372036854775808

-- The loop over the counters: the nodepools, the counters that are left, and whether one was
-- positive.
unfoldable pub reset_counters : Dict ℕ → List NodePool → Dict ℕ → List NodePool × Dict ℕ × Bool
unfolding reset_target_size
reset_counters [] nps left = (nps, left, false)
reset_counters ((name, n) ∷ counters) nps left =
    let positive = is_positive n in
    let (nps', left', any) =
      reset_counters counters (if positive then reset_target_size name nps else nps)
        (if positive then erase name left else left) in
    (nps', left', positive || any)

abbrev pub with_pools : List NodePool → Option K8sCluster → Option K8sCluster
with_pools nps none = none
with_pools nps (some k) =
    some (record k { cluster_info = record (k.cluster_info) { node_pools = nps } })

-- The counters are looked at only if there is no task; `none` where the cluster of a counter is nil.
abbrev pub reset_by : Option K8sCluster → PbClusterState → Option (PbClusterState × Bool)
reset_by none cs =
    if contains_func (λ e. is_positive e.1) cs.scale_up_failed then none else some (cs, false)
reset_by (some k) cs =
    let (nps, left, any) =
      reset_counters cs.scale_up_failed k.cluster_info.node_pools cs.scale_up_failed in
    some (
      record cs {
        current = record (cs.current) { k8s = with_pools nps (some k) };
        scale_up_failed = left;
      },
      any,
    )

abbrev pub reset : PbClusterState → Option (PbClusterState × Bool)
reset cs = if is_empty cs.in_flight then reset_by cs.current.k8s cs else some (cs, false)

abbrev pub fail : String → PbClusterState → PbClusterState
fail text cs = record cs { state = record (cs.state) { status = pb_error; description = text } }

-- The description of the error, without the text of its cause.
abbrev pub extract_error : String
extract_error = "Failed to extract state from failed 'InFlight' state"

abbrev pub with_in_flight : List PbTaskEvent → PbClusterState → PbClusterState
with_in_flight es cs = record cs { in_flight = es }

-- The credentials of the task, and of the current state.
abbrev pub update_event : Clusters → List PbTaskEvent → Option (List PbTaskEvent × Bool)
update_event desired [] = some ([], false)
update_event desired (e ∷ rest) = elim (mutable_clusters e.task) [
  | none ↦ none
  | some c ↦
      let (c', updated) = update_credentials c desired in
      some (record e { task = replace_clusters c' e.task } ∷ rest, updated)
]

-- The state to move from and the one to move to.
abbrev pub directions : List PbTaskEvent → Clusters → Clusters → Option (Clusters × Clusters)
directions [] current desired = some (current, desired)
directions (e ∷ _) current desired = elim (mutable_clusters e.task) [
  | none ↦ none
  | some c ↦ some (c, current)
]

-- `max(ticks, 0) - 1`, of an int32.
abbrev pub next_ticks : ℕ → ℕ
next_ticks t = i32_sub (if i32_lt t 0 then 0 else t) 1
