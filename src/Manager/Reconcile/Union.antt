-- ===== src/Manager/Reconcile/Union.antt =====
-- services/manager/internal/service/reconciliation.go: clustersUnion. `none` is a panic, also where a
-- nodepool or a loadbalancer that a difference names is not found.
pub mod Covers
use claudie.Prelude.{
  true, false, List, [], ◌∷◌, ◌++◌, Option, none, some, String, Dict, find_func, str_eq,
  if◌then◌else◌,
}
use claudie.Pools.Edit.{copy_nodes}
use claudie.Spec.{NodePool, Role, K8sCluster, LbCluster, Clusters, lb_id, find_by_name, find_by_id}
use claudie.Store.Convert.{◌>>=◌}
use claudie.Manager.Diff.{NodePoolsViewType, NodePoolsDiffResult}
use claudie.Manager.Diff.Kubernetes.{kubernetes_diff}
use claudie.Manager.Diff.LoadBalancers.{
  ProtoEqual, ModifiedLoadBalancer, LoadBalancerIdentifier, load_balancers_diff,
}

-- A change of the first nodepool of the name; `none` where there is none.
unfoldable pub change_pool : String → (NodePool → NodePool) → List NodePool → Option (List NodePool)
change_pool name f [] = none
change_pool name f (np ∷ nps) = elim (str_eq np.name name) [
  | true ↦ some (f np ∷ nps)
  | false ↦ elim (change_pool name f nps) [ none ↦ none | some nps' ↦ some (np ∷ nps') ]
]

-- The loops over `PartiallyAdded`.
unfoldable pub add_nodes :
    NodePoolsViewType → List NodePool → List NodePool → Option (List NodePool)
unfolding change_pool
add_nodes [] from into = some into
add_nodes ((name, nodes) ∷ added) from into = do
  src ← find_by_name name from
  into' ← change_pool name (λ dst. copy_nodes dst src nodes) into
  add_nodes added from into'

-- The loops over `Added`.
unfoldable pub add_pools :
    NodePoolsViewType → List NodePool → List NodePool → Option (List NodePool)
add_pools [] from into = some into
add_pools ((name, _) ∷ added) from into = do
  np ← find_by_name name from
  add_pools added from (into ++ np ∷ [])

abbrev pub merge_pools :
    NodePoolsDiffResult
    → NodePoolsDiffResult
    → List NodePool
    → List NodePool
    → Option (List NodePool)
merge_pools dyn stt from into = do
  a ← add_nodes dyn.partially_added from into
  b ← add_pools dyn.added from a
  d ← add_nodes stt.partially_added from b
  add_pools stt.added from d

-- "Merge Missing Roles."
unfoldable pub merge_roles : List String → List Role → List Role → List Role
unfolding find_func
merge_roles [] from into = into
merge_roles (name ∷ names) from into =
    merge_roles names from
      (elim (find_func (λ r. str_eq r.name name) from) [ none ↦ into | some r ↦ into ++ r ∷ [] ])

-- The first role of the name gets the target pools.
unfoldable pub extend_role : String → List String → List Role → List Role
extend_role name pools [] = []
extend_role name pools (r ∷ rs) =
    let rest = extend_role name pools rs in
    if str_eq r.name name
    then record r { target_pools = r.target_pools ++ pools } ∷ rs
    else r ∷ rest

-- "Merge Missing TargetPools."
unfoldable pub merge_target_pools : NodePoolsViewType → List Role → List Role
unfolding extend_role
merge_target_pools [] roles = roles
merge_target_pools ((name, pools) ∷ added) roles =
    merge_target_pools added (extend_role name pools roles)

-- "Same, but for loadbalancers.": the added ones.
unfoldable pub add_lbs :
    List LoadBalancerIdentifier → List LbCluster → List LbCluster → Option (List LbCluster)
add_lbs [] from into = some into
add_lbs (a ∷ as_) from into = do lb ← find_by_id a.id from; add_lbs as_ from (into ++ lb ∷ [])

-- A modified one, `clb`, with the one of the other state, `nlb`.
unfoldable pub merge_lb : ModifiedLoadBalancer → LbCluster → LbCluster → Option LbCluster
unfolding add_nodes add_pools merge_roles merge_target_pools
merge_lb m nlb clb = do
  nps ← merge_pools m.dynamic m.static nlb.cluster_info.node_pools clb.cluster_info.node_pools
  some (record clb {
    cluster_info = record (clb.cluster_info) { node_pools = nps };
    roles =
        merge_target_pools m.roles.target_pools_added
          (merge_roles m.roles.added nlb.roles clb.roles);
  })

-- The first loadbalancer of the id is merged.
unfoldable pub merge_at :
    String → ModifiedLoadBalancer → LbCluster → List LbCluster → Option (List LbCluster)
unfolding merge_lb
merge_at k m nlb [] = none
merge_at k m nlb (lb ∷ lbs) = elim (str_eq (lb_id lb) k) [
  | true ↦ elim (merge_lb m nlb lb) [ none ↦ none | some lb' ↦ some (lb' ∷ lbs) ]
  | false ↦ elim (merge_at k m nlb lbs) [ none ↦ none | some lbs' ↦ some (lb ∷ lbs') ]
]

unfoldable pub merge_lbs :
    Dict ModifiedLoadBalancer → List LbCluster → List LbCluster → Option (List LbCluster)
unfolding merge_at
merge_lbs [] from into = some into
merge_lbs ((k, m) ∷ entries) from into = do
  nlb ← find_by_id k from
  into' ← merge_at k m nlb into
  merge_lbs entries from into'

module _ (to_lower : String → String) (eq : ProtoEqual) where
  -- Both states have a kubernetes cluster.
  abbrev pub union_of : K8sCluster → List LbCluster → K8sCluster → List LbCluster → Option Clusters
  union_of k lbs k' lbs' = do
    d ← kubernetes_diff to_lower k k'
    e ← load_balancers_diff eq lbs lbs'
    nps ← merge_pools d.dynamic d.static k'.cluster_info.node_pools k.cluster_info.node_pools
    more ← add_lbs e.added lbs' lbs
    all ← merge_lbs e.modified lbs' more
    some (record {
      k8s = some (record k { cluster_info = record (k.cluster_info) { node_pools = nps } });
      load_balancers = all;
    })

  -- The `switch` of `clustersUnion`, by the kubernetes clusters.
  abbrev pub union_by :
      Option K8sCluster → Option K8sCluster → Clusters → Clusters → Option Clusters
  union_by none none old modified = some (record { k8s = none; load_balancers = [] })
  union_by none (some _) old modified = some modified
  union_by (some _) none old modified = some old
  union_by (some k) (some k') old modified =
      union_of k old.load_balancers k' modified.load_balancers

  -- `clustersUnion`
  unfoldable pub clusters_union : Clusters → Clusters → Option Clusters
  unfolding add_lbs merge_lbs add_nodes add_pools
  clusters_union old modified = union_by old.k8s modified.k8s old modified
