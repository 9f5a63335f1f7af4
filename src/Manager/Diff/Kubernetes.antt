-- ===== src/Manager/Diff/Kubernetes.antt =====
-- services/manager/internal/service/diff.go: KubernetesDiff and newAPIEndpointNodeCandidate, and of
-- proxy.go UsesProxy. `strings.ToLower` is a parameter. `none` is a panic: a nodepool of no type,
-- an installation proxy that is not set, or no control node to move the api endpoint to.
use claudie.Prelude.{
  Bool, true, false, not, ◌&&◌, ◌||◌, List, [], ◌∷◌, Option, none, some, String, Dict, contains,
  contains_func, find_func, str_eq, if◌then◌else◌,
}
use claudie.Spec.{
  NodePool, Node, worker, master, api_endpoint, K8sCluster, InstallationProxy, AutoscalerConf,
  TemplateRepository, dynamic_of,
}
use claudie.Store.Convert.{◌>>=◌}
use claudie.Manager.Diff.{NodePoolsViewType, NodePoolsDiffResult, node_pools_diff, nodes_of}
use claudie.Manager.Diff.Pools.{node_pools_view, pending_deletions, rolling_updates, transitions}
use claudie.Manager.Diff.Labels.{LabelsTaintsAnnotationsDiffResult, labels_diff, no_labels}

pub data ProxyChange : Type 0 where
  proxy_no_change proxy_off proxy_on proxy_refresh : ProxyChange

pub record ProxyDiffResult : Type 0 where
  pub current_used : Bool
  pub desired_used : Bool
  pub change : ProxyChange

-- The id of a node and the name of its nodepool, or "" and "".
abbrev pub NodeAt : Type 0
NodeAt = String × String

pub record KubernetesDiffResult : Type 0 where
  pub version : Bool
  pub proxy : ProxyDiffResult
  pub dynamic : NodePoolsDiffResult
  pub static : NodePoolsDiffResult
  pub changed_to_autoscaled : Dict AutoscalerConf
  pub changed_to_fixed : Dict (Unit {0})
  pub pending_dynamic_deletions : NodePoolsViewType
  pub pending_static_deletions : NodePoolsViewType
  pub current_endpoint : NodeAt
  pub desired_endpoint : NodeAt
  pub labels_taints_annotations : LabelsTaintsAnnotationsDiffResult
  pub rolling_updates : Dict TemplateRepository

abbrev pub is_endpoint : Node → Bool
is_endpoint n = elim (n.node_type) [ worker ↦ false | master ↦ false | api_endpoint ↦ true ]

-- The first node of the api endpoint, in the control nodepools.
unfoldable pub current_endpoint : List NodePool → Option NodeAt
unfolding find_func
current_endpoint [] = none
current_endpoint (np ∷ nps) =
    let later = current_endpoint nps in
    if np.is_control
    then elim (find_func is_endpoint np.nodes) [ none ↦ later | some n ↦ some (n.name, np.name) ]
    else later

abbrev pub first_node : NodePool → Option NodeAt
first_node np = elim (np.nodes) [ [] ↦ none | n ∷ _ ↦ some (n.name, np.name) ]

-- `newAPIEndpointNodeCandidate`; `none` is its panic.
unfoldable pub new_api_endpoint_node_candidate : List NodePool → Option NodeAt
new_api_endpoint_node_candidate [] = none
new_api_endpoint_node_candidate (np ∷ nps) =
    let later = new_api_endpoint_node_candidate nps in
    if np.is_control then first_node np else later

-- Whether a difference deletes the node.
unfoldable pub deletes : NodePoolsDiffResult → NodeAt → Bool
deletes r (n, pool) =
    contains n (nodes_of pool r.deleted) || contains n (nodes_of pool r.partially_deleted)

-- "Check if Api endpoint is deleted": four tests with one body. The desired endpoint.
abbrev pub desired_endpoint :
    NodePoolsDiffResult → NodePoolsDiffResult → List NodePool → NodeAt → Option NodeAt
desired_endpoint dyn stt nps (n, pool) =
    if not (str_eq n "") && (deletes dyn (n, pool) || deletes stt (n, pool))
    then new_api_endpoint_node_candidate nps
    else some (n, pool)

-- Both endpoints; "" where the current state has none.
unfoldable pub api_endpoint_diff :
    NodePoolsDiffResult
    → NodePoolsDiffResult
    → List NodePool
    → List NodePool
    → Option (NodeAt × NodeAt)
unfolding current_endpoint new_api_endpoint_node_candidate deletes
api_endpoint_diff dyn stt old desired = elim (current_endpoint old) [
  | none ↦ some (("", ""), ("", ""))
  | some c ↦ elim (desired_endpoint dyn stt desired c) [ none ↦ none | some d ↦ some (c, d) ]
]

unfoldable pub proxy_change : Bool → Bool → String → String → ProxyChange
proxy_change true false old new = proxy_off
proxy_change false true old new = proxy_on
proxy_change true true old new = if str_eq old new then proxy_no_change else proxy_refresh
proxy_change false false old new = proxy_no_change

module _ (to_lower : String → String) where
  abbrev pub is_hetzner : NodePool → Bool
  is_hetzner np = elim (dynamic_of np.type) [
    | none ↦ false
    | some d ↦ str_eq (to_lower d.provider.cloud_provider_name) "hetzner"
  ]

  unfoldable pub has_hetzner_node : K8sCluster → Bool
  unfolding contains_func
  has_hetzner_node k = contains_func is_hetzner k.cluster_info.node_pools

  -- `UsesProxy`, by the settings of the proxy.
  unfoldable pub uses_proxy : K8sCluster → InstallationProxy → Bool
  unfolding has_hetzner_node
  uses_proxy k p = (str_eq p.mode "default" && has_hetzner_node k) || str_eq p.mode "on"

  unfoldable pub proxy_diff : K8sCluster → K8sCluster → Option ProxyDiffResult
  unfolding uses_proxy proxy_change
  proxy_diff old desired = do
    p ← old.installation_proxy
    q ← desired.installation_proxy
    some (record {
      current_used = uses_proxy old p;
      desired_used = uses_proxy desired q;
      change = proxy_change (uses_proxy old p) (uses_proxy desired q) p.no_proxy q.no_proxy;
    })

  -- `KubernetesDiff`
  unfoldable pub kubernetes_diff : K8sCluster → K8sCluster → Option KubernetesDiffResult
  unfolding proxy_diff api_endpoint_diff
  kubernetes_diff old desired = do
    o ← node_pools_view old.cluster_info.node_pools
    n ← node_pools_view desired.cluster_info.node_pools
    let dyn = (node_pools_diff o.0 n.0).0
    let stt = (node_pools_diff o.1 n.1).0
    proxy ← proxy_diff old desired
    ends ← api_endpoint_diff dyn stt old.cluster_info.node_pools desired.cluster_info.node_pools
    let pending = pending_deletions old.cluster_info.node_pools desired.cluster_info.node_pools
    let changed = transitions old.cluster_info.node_pools desired.cluster_info.node_pools
    some (record {
      version = not (str_eq old.kubernetes desired.kubernetes);
      proxy = proxy;
      dynamic = dyn;
      static = stt;
      changed_to_autoscaled = changed.0;
      changed_to_fixed = changed.1;
      pending_dynamic_deletions = pending.0;
      pending_static_deletions = pending.1;
      current_endpoint = ends.0;
      desired_endpoint = ends.1;
      labels_taints_annotations =
          labels_diff old.cluster_info.node_pools desired.cluster_info.node_pools no_labels;
      rolling_updates = rolling_updates old.cluster_info.node_pools desired.cluster_info.node_pools;
    })
