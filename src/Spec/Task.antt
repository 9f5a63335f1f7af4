-- ===== src/Spec/Task.antt =====
-- The tasks of proto/spec/manifest.proto: what is done to a cluster, and what a stage reports back.
use claudie.Prelude.{ℕ, Bool, List, Option, String, Dict}
use claudie.Spec.{
  Node, NodePool, AutoscalerConf, K8sCluster, LbCluster, Role, RoleType, Settings, Dns, Taint,
  InstallationProxy,
}

pub data ApiEndpointChangeState : Type 0 where
  no_change attaching_load_balancer detaching_load_balancer endpoint_renamed move_endpoint :
      ApiEndpointChangeState

abbrev pub UnreachableNodePools : Type 0
UnreachableNodePools = Dict (List String)

pub record Unreachable : Type 0 where
  pub kubernetes : Option UnreachableNodePools
  pub load_balancers : Dict UnreachableNodePools

-- The `oneof Kind` of the messages that add nodes.
pub data AddKind : Type 0 where
  unset : AddKind
  existing : (nodepool : String) (nodes : List Node) → AddKind
  new : (nodepool : NodePool) → AddKind

-- The `oneof Kind` of the messages for deleted nodes.
pub data DeletedKind : Type 0 where
  unset : DeletedKind
  whole : (nodepool : NodePool) → DeletedKind
  partial : (nodepool : String) (nodes : List Node) (static_node_keys : Dict String) → DeletedKind

-- A request to delete nodes, of a kubernetes cluster or of a loadbalancer.
pub record DeleteNodes : Type 0 where
  pub with_node_pool : Bool
  pub nodepool : String
  pub nodes : List String
  pub unreachable : Option Unreachable

-- Nodes that were added, and whether their nodepool is new.
pub record AddedNodes : Type 0 where
  pub new_node_pool : Bool
  pub nodepool : String
  pub nodes : List String

pub record PatchBatch : Type 0 where
  pub add_taints : Dict (List Taint)
  pub add_labels : Dict (Dict String)
  pub add_annotations : Dict (Dict String)
  pub remove_taints : Dict (List Taint)
  pub remove_annotations : Dict (List String)
  pub remove_labels : Dict (List String)

-- The `oneof Delta` of `Update`: requests (tf, ans, k) and their consumed forms.
pub data Delta : Type 0 where
  unset none_delta : Delta
  tf_add_load_balancer : (handle : LbCluster) → Delta
  tf_add_load_balancer_nodes : (handle : String) (kind : AddKind) → Delta
  tf_replace_dns : (handle : String) (dns : Option Dns) (old_api_endpoint : Option String) → Delta
  tf_add_k8s_nodes : (kind : AddKind) → Delta
  tf_add_load_balancer_roles : (handle : String) (roles : List Role) → Delta
  tf_delete_load_balancer_nodes : (handle : String) (request : DeleteNodes) → Delta
  tf_move_node_pool_to_autoscaled : (nodepool : String) (config : Option AutoscalerConf) → Delta
  tf_move_node_pool_from_autoscaled : (nodepool : String) → Delta
  tf_replace_role_external_settings :
      (handle role : String) (role_type : RoleType) (protocol : String) (port : ℕ) → Delta
  ans_replace_proxy : (proxy : Option InstallationProxy) → Delta
  ans_replace_target_pools : (handle : String) (roles : Dict (List String)) → Delta
  ans_replace_role_internal_settings :
      (handle role : String) (target_port : ℕ) (settings : Option Settings) → Delta
  kpatch_nodes : (batch : PatchBatch) → Delta
  k_delete_nodes : (request : DeleteNodes) → Delta
  added_load_balancer : (handle : String) → Delta
  added_load_balancer_nodes : (handle : String) (added : AddedNodes) → Delta
  replaced_dns : (handle : String) (old_api_endpoint : Option String) → Delta
  added_k8s_nodes : (added : AddedNodes) → Delta
  replaced_proxy patched_nodes : Delta
  added_load_balancer_roles : (handle : String) (roles : List String) → Delta
  replaced_target_pools : (handle : String) (roles : Dict (List String)) → Delta
  moved_node_pool_to_autoscaled : (nodepool : String) → Delta
  moved_node_pool_from_autoscaled : (nodepool : String) (config : Option AutoscalerConf) → Delta
  replaced_role_internal_settings : (handle role : String) → Delta
  replaced_role_external_settings : (handle role : String) → Delta
  delete_load_balancer : (handle : String) (unreachable : Option Unreachable) → Delta
  deleted_k8s_nodes : (unreachable : Option Unreachable) (kind : DeletedKind) → Delta
  deleted_load_balancer_nodes :
      (handle : String) (unreachable : Option Unreachable) (kind : DeletedKind) → Delta
  delete_load_balancer_roles : (handle : String) (roles : List String) → Delta
  api_endpoint_change : (state : ApiEndpointChangeState) (current_id desired_id : String) → Delta
  cluster_api_port : (open_port : Bool) → Delta
  k8s_api_endpoint : (nodepool node : String) → Delta
  upgrade_version : (version : String) → Delta

-- The state that a task carries: the fields `k8s` and `loadBalancers` of each kind of task.
pub record TaskState : Type 0 where
  pub k8s : Option K8sCluster
  pub load_balancers : List LbCluster

-- The `oneof Do` of `Task`.
pub data Task : Type 0 where
  unset : Task
  create : TaskState → Task
  update : TaskState → Delta → Task
  delete : TaskState → Task

pub record UpdateState : Type 0 where
  pub k8s : Option K8sCluster
  pub load_balancers : Option (List LbCluster)

pub record ClearState : Type 0 where
  pub k8s : Option Bool
  pub load_balancers_ids : List String

pub data ErrorKind : Type 0 where
  fatal partial_error : ErrorKind

-- The `oneof Result` of `TaskResult`.
pub data Outcome : Type 0 where
  unset none_result : Outcome
  update_result : UpdateState → Outcome
  clear_result : ClearState → Outcome

pub record TaskResult : Type 0 where
  pub error : Option (ErrorKind × String)
  pub result : Outcome
