-- ===== src/Spec/Request.antt =====
-- proto/pb/spec/utils_consume.go: the two `switch`es of ConsumeUpdateResult that turn the request
-- of an Update task into its consumed form, before and after the clusters are replaced.
use claudie.Prelude.{
  true, false, List, [], ◌∷◌, Option, none, some, String, Dict, map, contains, str_eq, keep_func,
  insert, lookup, if◌then◌else◌,
}
use claudie.Spec.{
  Node, NodePool, AutoscalerConf, K8sCluster, LbCluster, dynamic_of, static_of, find_by_name,
  find_by_id, lb_id,
}
use claudie.Spec.Task.{
  Delta, DeleteNodes, DeletedKind, AddKind, AddedNodes, tf_add_load_balancer,
  tf_add_load_balancer_nodes, tf_replace_dns, tf_add_k8s_nodes, tf_add_load_balancer_roles,
  tf_delete_load_balancer_nodes, tf_move_node_pool_to_autoscaled, tf_move_node_pool_from_autoscaled,
  tf_replace_role_external_settings, ans_replace_proxy, ans_replace_target_pools,
  ans_replace_role_internal_settings, kpatch_nodes, k_delete_nodes, added_load_balancer,
  added_load_balancer_nodes, replaced_dns, added_k8s_nodes, replaced_proxy, patched_nodes,
  added_load_balancer_roles, replaced_target_pools, moved_node_pool_to_autoscaled,
  moved_node_pool_from_autoscaled, replaced_role_internal_settings, replaced_role_external_settings,
  deleted_k8s_nodes, deleted_load_balancer_nodes,
}
use claudie.Spec.Clear.{Consumed, ok, refused, invalid_deleted_nodepool, invalid_load_balancer}

-- `stt.NodeKeys[key]`, which is "" for an absent key.
abbrev pub key_or_empty : String → Dict String → String
key_or_empty k m = elim (lookup k m) [ none ↦ "" | some v ↦ v ]

-- `d.Partial.StaticNodeKeys[key] = stt.NodeKeys[key]` for each of the nodes.
unfoldable pub static_keys : Dict String → List Node → Dict String → Dict String
static_keys node_keys [] acc = acc
static_keys node_keys (n ∷ ns) acc =
    static_keys node_keys ns (insert n.public (key_or_empty n.public node_keys) acc)

-- The nodes of the affected nodepool that the request names.
abbrev pub named_nodes : DeleteNodes → NodePool → List Node
named_nodes request affected = keep_func (λ n. contains n.name request.nodes) affected.nodes

-- What the consumed form keeps of the affected nodepool.
unfoldable pub deleted_kind : DeleteNodes → NodePool → DeletedKind
unfolding static_keys
deleted_kind request affected =
    let nodes = named_nodes request affected in
    if request.with_node_pool
    then DeletedKind.whole affected
    else DeletedKind.partial request.nodepool nodes (elim (static_of affected.type) [
      | none ↦ []
      | some stt ↦ static_keys stt.node_keys nodes []
    ])

-- "Consume delete updates, if any."
unfoldable pub consume_delete : K8sCluster → List LbCluster → Delta → Consumed Delta
unfolding deleted_kind find_by_name find_by_id
consume_delete k lbs (k_delete_nodes request) =
    elim (find_by_name request.nodepool k.cluster_info.node_pools) [
      | none ↦ refused invalid_deleted_nodepool (k_delete_nodes request)
      | some affected ↦ ok (deleted_k8s_nodes request.unreachable (deleted_kind request affected))
    ]
consume_delete k lbs (tf_delete_load_balancer_nodes handle request) = elim (find_by_id handle lbs) [
  | none ↦ refused invalid_load_balancer (tf_delete_load_balancer_nodes handle request)
  | some lb ↦ elim (find_by_name request.nodepool lb.cluster_info.node_pools) [
    | none ↦ refused invalid_deleted_nodepool (tf_delete_load_balancer_nodes handle request)
    | some affected ↦
        ok (deleted_load_balancer_nodes handle request.unreachable (deleted_kind request affected))
  ]
]
consume_delete k lbs d = ok d

-- The loop over the nodepools for `config`: the last dynamic nodepool of the name decides.
unfoldable pub last_config : String → List NodePool → Option AutoscalerConf → Option AutoscalerConf
last_config name [] config = config
last_config name (np ∷ nps) config = last_config name nps (
    if str_eq np.name name
    then elim (dynamic_of np.type) [ none ↦ config | some dyn ↦ dyn.autoscaler_config ]
    else config)

unfoldable pub added_of : AddKind → AddedNodes
added_of AddKind.unset = record { new_node_pool = false; nodepool = ""; nodes = [] }
added_of (AddKind.existing nodepool nodes) = record {
  new_node_pool = false;
  nodepool = nodepool;
  nodes = map (λ n. n.name) nodes;
}
added_of (AddKind.new nodepool) = record {
  new_node_pool = true;
  nodepool = nodepool.name;
  nodes = map (λ n. n.name) nodepool.nodes;
}

-- "Consume replace updates, if any.", over the kubernetes cluster after the update.
unfoldable pub consume_replace : K8sCluster → Delta → Delta
unfolding last_config added_of
consume_replace k (tf_move_node_pool_from_autoscaled nodepool) =
    moved_node_pool_from_autoscaled nodepool (last_config nodepool k.cluster_info.node_pools none)
consume_replace k (tf_move_node_pool_to_autoscaled nodepool _) =
    moved_node_pool_to_autoscaled nodepool
consume_replace k (ans_replace_role_internal_settings handle role _ _) =
    replaced_role_internal_settings handle role
consume_replace k (tf_replace_role_external_settings handle role _ _ _) =
    replaced_role_external_settings handle role
consume_replace k (ans_replace_proxy _) = replaced_proxy
consume_replace k (ans_replace_target_pools handle roles) = replaced_target_pools handle roles
consume_replace k (kpatch_nodes _) = patched_nodes
consume_replace k (tf_add_k8s_nodes kind) = added_k8s_nodes (added_of kind)
consume_replace k (tf_add_load_balancer handle) = added_load_balancer (lb_id handle)
consume_replace k (tf_add_load_balancer_nodes handle kind) =
    added_load_balancer_nodes handle (added_of kind)
consume_replace k (tf_add_load_balancer_roles handle roles) =
    added_load_balancer_roles handle (map (λ r. r.name) roles)
consume_replace k (tf_replace_dns handle _ old_api_endpoint) = replaced_dns handle old_api_endpoint
consume_replace k d = d
