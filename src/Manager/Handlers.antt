-- ===== src/Manager/Handlers.antt =====
-- services/manager/internal/service: NodePoolUpdateTargetSize (handler_node_pool_update_target_size.go)
-- and MarkNodeForDeletion (handler_mark_node_for_deletion.go), the handlers that the autoscaler
-- calls. The texts of the errors are left out, the codes are kept.
pub mod Range
pub mod Edits
pub mod Upsert
use claudie.Prelude.{
  ℕ, ◌+◌, ◌-◌, Bool, true, false, not, ◌&&◌, ◌||◌, List, [], ◌∷◌, Option, none, some, String, Dict,
  lookup, insert, length, str_eq, i32, i32_lt, i32_sub, find_func, if◌then◌else◌,
}
use claudie.Pools.{is_empty}
use claudie.Spec.{
  Node, NodePool, PoolType, DynamicNodePool, AutoscalerConf, K8sCluster, LbCluster, Clusters,
  marked_for_deletion, lb_id,
}
use claudie.Store.{Store, Config, ClusterState, Reply, ok, missing, broken}
use claudie.Store.Convert.{Codec}
use claudie.Store.States.{
  PbClusterState, convert_to_grpc_cluster_state, convert_from_grpc_cluster_state,
}

-- The codes of grpc that the handlers answer with.
pub data Code : Type 0 where
  invalid_argument not_found internal aborted : Code

-- The answer to a request, or the service panics.
pub data Response {ℓ} (A : Type ℓ) : Type ℓ where
  answer : A → Response A
  refused : Code → Response A
  crashed : Response A

unfoldable pub and_then {ℓ κ} :
    {A : Type ℓ} {B : Type κ} → Response A → (A → Response B) → Response B
and_then (answer a) f = f a
and_then (refused c) f = refused c
and_then crashed f = crashed

-- A changed value, and the target size that is answered.
abbrev pub Sized : Type 0 → Type 0
Sized A = A × ℕ

-- The target size of an autoscaled nodepool is set, within the range.
unfoldable pub set_target : AutoscalerConf → ℕ → Response (Sized AutoscalerConf)
set_target a size =
    if i32_lt size a.min
    then refused invalid_argument
    else if i32_lt a.max size
    then refused invalid_argument
    else answer (record a { target_size = size }, size)

abbrev pub resize_autoscaled :
    DynamicNodePool → Option AutoscalerConf → ℕ → Response (Sized PoolType)
resize_autoscaled d none size = answer (PoolType.dynamic d, d.count)
resize_autoscaled d (some a) size =
    and_then (set_target a size)
      (λ r. answer (PoolType.dynamic (record d { autoscaler_config = some r.0 }), r.1))

abbrev pub resize_type : PoolType → List Node → ℕ → Response (Sized PoolType)
resize_type (PoolType.dynamic d) nodes size = resize_autoscaled d d.autoscaler_config size
resize_type t nodes size = answer (t, i32 (length nodes))

-- The nodepool after NodePoolUpdateTargetSize.
unfoldable pub resize : ℕ → NodePool → Response (Sized NodePool)
unfolding set_target and_then
resize size np =
    and_then (resize_type np.type np.nodes size) (λ r. answer (record np { type = r.0 }, r.1))

-- An int32 as an int64.
abbrev pub widen : ℕ → ℕ
widen n = if i32_lt n 0 then n + (18446744073709551616 - 4294967296) else n

-- "newTargetSize := dyn.AutoscalerConfig.TargetSize - 1"
unfoldable pub decrement : AutoscalerConf → Bool → Response (Sized AutoscalerConf)
decrement a false = answer (a, widen a.target_size)
decrement a true =
    let size = i32_sub a.target_size 1 in
    if i32_lt size a.min
    then refused invalid_argument
    else answer (record a { target_size = size }, widen size)

abbrev pub shrink_autoscaled :
    DynamicNodePool → Option AutoscalerConf → Bool → Response (Sized PoolType)
shrink_autoscaled d none should = answer (PoolType.dynamic d, widen d.count)
shrink_autoscaled d (some a) should =
    and_then (decrement a should)
      (λ r. answer (PoolType.dynamic (record d { autoscaler_config = some r.0 }), r.1))

abbrev pub shrink_type : PoolType → List Node → Bool → Response (Sized PoolType)
shrink_type (PoolType.dynamic d) nodes should = shrink_autoscaled d d.autoscaler_config should
shrink_type t nodes should = answer (t, length nodes)

-- The first node of the name is marked; `none` where there is none.
unfoldable pub mark_first : String → List Node → Option (List Node)
mark_first name [] = none
mark_first name (n ∷ ns) =
    let rest = mark_first name ns in
    if str_eq n.name name
    then some (record n { status = marked_for_deletion } ∷ ns)
    else elim rest [ none ↦ none | some ns' ↦ some (n ∷ ns') ]

-- The nodepool after MarkNodeForDeletion.
unfoldable pub mark : String → Bool → NodePool → Response (Sized NodePool)
unfolding decrement and_then mark_first
mark name should np = elim (mark_first name np.nodes) [
  | none ↦ refused not_found
  | some nodes ↦
      and_then (shrink_type np.type np.nodes should)
        (λ r. answer (record np { type = r.0; nodes = nodes }, r.1))
]

abbrev pub Edit : Type 0
Edit = NodePool → Response (Sized NodePool)

-- The first nodepool of the name is changed.
unfoldable pub edit_pool : Edit → String → List NodePool → Response (Sized (List NodePool))
unfolding and_then
edit_pool f name [] = refused not_found
edit_pool f name (np ∷ nps) =
    if str_eq np.name name
    then and_then (f np) (λ r. answer (r.0 ∷ nps, r.1))
    else and_then (edit_pool f name nps) (λ r. answer (np ∷ r.0, r.1))

-- The first loadbalancer of the id has the nodepool.
unfoldable pub edit_lb : Edit → String → String → List LbCluster → Response (Sized (List LbCluster))
unfolding edit_pool
edit_lb f k name [] = refused internal
edit_lb f k name (lb ∷ lbs) =
    if str_eq (lb_id lb) k
    then and_then (edit_pool f name lb.cluster_info.node_pools) (λ r.
      answer
        (record lb { cluster_info = record (lb.cluster_info) { node_pools = r.0 } } ∷ lbs, r.1))
    else and_then (edit_lb f k name lbs) (λ r. answer (lb ∷ r.0, r.1))

abbrev pub edit_k8s : Edit → String → Option K8sCluster → Response (Sized (Option K8sCluster))
edit_k8s f name none = crashed
edit_k8s f name (some k) = and_then (edit_pool f name k.cluster_info.node_pools) (λ r.
    answer (some (record k { cluster_info = record (k.cluster_info) { node_pools = r.0 } }), r.1))

-- In the kubernetes cluster, or in the loadbalancer that the request names.
unfoldable pub edit_clusters : Edit → Option String → String → Clusters → Response (Sized Clusters)
unfolding edit_lb
edit_clusters f none name c =
    and_then (edit_k8s f name c.k8s) (λ r. answer (record c { k8s = r.0 }, r.1))
edit_clusters f (some k) name c =
    and_then (edit_lb f k name c.load_balancers)
      (λ r. answer (record c { load_balancers = r.0 }, r.1))

-- What both requests name.
pub record Place : Type 0 where
  pub config : String
  pub cluster : String
  pub nodepool : String
  pub loadbalancer : Option String

abbrev pub is_incomplete : Place → Bool
is_incomplete p = (str_eq p.config "" || str_eq p.cluster "") || str_eq p.nodepool ""

-- `ClusterState.Exists`
abbrev pub exists : Option ClusterState → Option ClusterState
exists none = none
exists (some cs) = if is_empty cs.current.k8s then none else some cs

module _ (st : Store) (c : Codec) (now : String) where
  abbrev pub save : st.Db → Config → String → ClusterState → ℕ → st.Db × Response ℕ
  save db cfg name cs size =
      let (db', reply) =
        st.update_config db (record cfg { clusters = insert name cs cfg.clusters }) in
      (
        db',
        elim reply [ ok _ ↦ answer size | missing ↦ refused aborted | broken ↦ refused internal ],
      )

  -- "Persist changes."
  abbrev pub persist :
      st.Db → Config → String → PbClusterState → Response (Sized Clusters) → st.Db × Response ℕ
  persist db cfg name state (refused code) = (db, refused code)
  persist db cfg name state crashed = (db, crashed)
  persist db cfg name state (answer (clusters, size)) =
      elim (convert_from_grpc_cluster_state c now (record state { current = clusters })) [
        | none ↦ (db, refused internal)
        | some cs ↦ save db cfg name cs size
      ]

  abbrev pub handle_cluster : Edit → Place → st.Db → Config → ClusterState → st.Db × Response ℕ
  handle_cluster f p db cfg cs =
      if not (is_empty cs.in_flight)
      then (db, refused internal)
      else elim (convert_to_grpc_cluster_state c cs) [
        | none ↦ (db, refused internal)
        | some state ↦
            persist db cfg p.cluster state (edit_clusters f p.loadbalancer p.nodepool state.current)
      ]

  -- What the two handlers share.
  unfoldable pub handle_edit : Edit → Place → st.Db → st.Db × Response ℕ
  unfolding lookup insert edit_clusters convert_to_grpc_cluster_state
      convert_from_grpc_cluster_state
  handle_edit f p db = elim (st.get_config db p.config) [
    | broken ↦ (db, refused internal)
    | missing ↦ (db, refused not_found)
    | ok cfg ↦ elim (exists (lookup p.cluster cfg.clusters)) [
      | none ↦ (db, refused not_found)
      | some cs ↦ handle_cluster f p db cfg cs
    ]
  ]

  -- `NodePoolUpdateTargetSize`
  unfoldable pub node_pool_update_target_size : Place → ℕ → st.Db → st.Db × Response ℕ
  unfolding handle_edit resize
  node_pool_update_target_size p size db =
      if is_incomplete p then (db, refused invalid_argument) else handle_edit (resize size) p db

  abbrev pub is_asked : Option Bool → Bool
  is_asked none = false
  is_asked (some b) = b

  -- `MarkNodeForDeletion`, with `ShouldDecrementDesiredCapacity`.
  unfoldable pub mark_node_for_deletion : Place → String → Option Bool → st.Db → st.Db × Response ℕ
  unfolding handle_edit mark
  mark_node_for_deletion p node should db =
      if is_incomplete p || str_eq node ""
      then (db, refused invalid_argument)
      else handle_edit (mark node (is_asked should)) p db
