-- ===== src/Manager/Credentials.antt =====
-- services/manager/internal/service/reconciliation.go: updateCredentials and
-- updateNodePoolCredentials. A DNS and a provider are values, so the change in place gives a new
-- state, and a flag that says whether something was updated.
pub mod Again
use claudie.Prelude.{
  Bool, true, false, ◌||◌, ◌&&◌, not, List, [], ◌∷◌, Option, none, some, String, Dict, lookup,
  str_eq, if◌then◌else◌,
}
use claudie.Spec.{
  NodePool, PoolType, K8sCluster, LbCluster, Clusters, Dns, find_by_name, find_by_id, lb_id,
}
use claudie.Spec.Credentials.{Updated, update_provider}

-- The new key of an endpoint, if the desired keys have another.
abbrev pub new_key : Option String → String → Updated String
new_key none key = (key, false)
new_key (some desired) key = if str_eq key desired then (key, false) else (desired, true)

-- The loop over `NodeKeys`.
unfoldable pub update_keys : Dict String → Dict String → Updated (Dict String)
update_keys [] desired = ([], false)
update_keys ((endpoint, key) ∷ keys) desired =
    let (key', here) = new_key (lookup endpoint desired) key in
    let (keys', there) = update_keys keys desired in ((endpoint, key') ∷ keys', here || there)

abbrev pub update_pool_type : PoolType → PoolType → Updated PoolType
update_pool_type (PoolType.dynamic c) (PoolType.dynamic d) =
    let (p, updated) = update_provider c.provider d.provider in
    (PoolType.dynamic (record c { provider = p }), updated)
update_pool_type (PoolType.static c) (PoolType.static d) =
    let (keys, updated) = update_keys c.node_keys d.node_keys in
    (PoolType.static (record c { node_keys = keys }), updated)
update_pool_type c _ = (c, false)

-- `updateNodePoolCredentials`
unfoldable pub update_node_pool_credentials : NodePool → NodePool → Updated NodePool
unfolding update_keys
update_node_pool_credentials current desired =
    let (t, updated) = update_pool_type current.type desired.type in
    (record current { type = t }, updated)

-- By the desired nodepool of the name.
abbrev pub update_found : NodePool → Option NodePool → Updated NodePool
update_found np none = (np, false)
update_found np (some desired) = update_node_pool_credentials np desired

-- The loop over the nodepools of a cluster.
unfoldable pub update_node_pools : List NodePool → List NodePool → Updated (List NodePool)
unfolding update_node_pool_credentials
update_node_pools [] desired = ([], false)
update_node_pools (np ∷ nps) desired =
    let (np', here) = update_found np (find_by_name np.name desired) in
    let (nps', there) = update_node_pools nps desired in (np' ∷ nps', here || there)

-- A DNS, unless one of the two failed to be built.
abbrev pub update_dns : Option Dns → Option Dns → Updated (Option Dns)
update_dns (some c) (some d) =
    let (p, updated) = update_provider c.provider d.provider in
    (some (record c { provider = p }), updated)
update_dns c _ = (c, false)

unfoldable pub update_lb : LbCluster → Option LbCluster → Updated LbCluster
unfolding update_node_pools
update_lb lb none = (lb, false)
update_lb lb (some desired) =
    let (nps, here) =
      update_node_pools lb.cluster_info.node_pools desired.cluster_info.node_pools in
    let (dns, there) = update_dns lb.dns desired.dns in
    (
      record lb { cluster_info = record (lb.cluster_info) { node_pools = nps }; dns = dns },
      here || there,
    )

unfoldable pub update_lbs : List LbCluster → List LbCluster → Updated (List LbCluster)
unfolding update_lb
update_lbs [] desired = ([], false)
update_lbs (lb ∷ lbs) desired =
    let (lb', here) = update_lb lb (find_by_id (lb_id lb) desired) in
    let (lbs', there) = update_lbs lbs desired in (lb' ∷ lbs', here || there)

-- `GetK8S().GetClusterInfo().GetNodePools()`
abbrev pub pools_of : Option K8sCluster → List NodePool
pools_of none = []
pools_of (some k) = k.cluster_info.node_pools

abbrev pub update_k8s : Option K8sCluster → Option K8sCluster → Updated (Option K8sCluster)
update_k8s none desired = (none, false)
update_k8s (some k) desired =
    let (nps, updated) = update_node_pools k.cluster_info.node_pools (pools_of desired) in
    (some (record k { cluster_info = record (k.cluster_info) { node_pools = nps } }), updated)

-- `updateCredentials`
unfoldable pub update_credentials : Clusters → Clusters → Updated Clusters
unfolding update_lbs
update_credentials current desired =
    let (k8s, here) = update_k8s current.k8s desired.k8s in
    let (lbs, there) = update_lbs current.load_balancers desired.load_balancers in
    (record { k8s = k8s; load_balancers = lbs }, here || there)
