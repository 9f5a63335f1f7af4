-- ===== src/Pools/Edit.antt =====
-- internal/nodepools/nodepools.go: CopyNodes, DeleteNodes and the searches.
use claudie.Prelude.{
  Bool, true, false, ◌&&◌, ◌||◌, List, [], ◌∷◌, ◌++◌, Option, none, some, String, Dict, length,
  contains, contains_func, delete_func, keep_func, find_func, insert, erase, is_some, is_none,
  if◌then◌else◌, i32, i32_add, i32_sub,
}
use claudie.Spec.{Node, NodePool, PoolType, api_endpoint, NodeType, dynamic_of, static_of}
use claudie.Spec.Request.{key_or_empty}
use claudie.Pools.{named}

-- The two nodepools are of different kinds.
abbrev pub kinds_differ : PoolType → PoolType → Bool
kinds_differ dst src =
    (is_some (dynamic_of src) && is_none (dynamic_of dst))
    || (is_some (static_of src) && is_none (static_of dst))

-- One more node in `dst`, by the kind of `src`. `kinds_differ` rules the mixed cases out.
abbrev pub count_node : PoolType → Node → PoolType → PoolType
count_node PoolType.unset n dst = dst
count_node (PoolType.dynamic _) n (PoolType.dynamic d) =
    PoolType.dynamic (record d { count = i32_add d.count 1 })
count_node (PoolType.dynamic _) n dst = dst
count_node (PoolType.static s) n (PoolType.static t) =
    PoolType.static
      (record t { node_keys = insert n.public (key_or_empty n.public s.node_keys) t.node_keys })
count_node (PoolType.static s) n dst = dst

abbrev pub add_node : PoolType → Node → NodePool → NodePool
add_node src n dst = record dst { type = count_node src n dst.type; nodes = dst.nodes ++ n ∷ [] }

-- The loop of `CopyNodes`.
unfoldable pub copy_from : PoolType → List String → List Node → NodePool → NodePool
copy_from src names [] dst = dst
copy_from src names (n ∷ ns) dst =
    copy_from src names ns (if contains n.name names then add_node src n dst else dst)

-- `CopyNodes`
unfoldable pub copy_nodes : NodePool → NodePool → List String → NodePool
unfolding copy_from
copy_nodes dst src names =
    if kinds_differ dst.type src.type then dst else copy_from src.type names src.nodes dst

-- `CloneTargetNodes`
unfoldable pub clone_target_nodes : Option NodePool → List String → List Node
clone_target_nodes none names = []
clone_target_nodes (some np) names = keep_func (λ n. contains n.name names) np.nodes

abbrev pub erase_keys : List Node → Dict String → Dict String
erase_keys [] m = m
erase_keys (n ∷ ns) m = erase_keys ns (erase n.public m)

-- The count falls by the deleted nodes, or their keys go.
abbrev pub forget_nodes : List Node → PoolType → PoolType
forget_nodes deleted PoolType.unset = PoolType.unset
forget_nodes deleted (PoolType.dynamic d) =
    PoolType.dynamic (record d { count = i32_sub d.count (i32 (length deleted)) })
forget_nodes deleted (PoolType.static s) =
    PoolType.static (record s { node_keys = erase_keys deleted s.node_keys })

abbrev pub hit : List String → Node → Bool
hit names n = contains n.name names

-- `DeleteNodes`
unfoldable pub delete_nodes : NodePool → List String → NodePool
delete_nodes np names = record np {
  type = forget_nodes (keep_func (hit names) np.nodes) np.type;
  nodes = delete_func (hit names) np.nodes;
}

-- `ContainsNode`
unfoldable pub contains_node : List NodePool → String → Bool
contains_node nps name = contains_func (λ np. contains_func (named name) np.nodes) nps

-- `FindNode`
unfoldable pub find_node : List NodePool → String → Option (NodePool × Node)
find_node [] name = none
find_node (np ∷ nps) name = elim (find_func (named name) np.nodes) [
  | none ↦ find_node nps name
  | some n ↦ some (np, n)
]

-- `IsAutoscaled`
unfoldable pub is_autoscaled : NodePool → Bool
is_autoscaled np = elim (dynamic_of np.type) [ none ↦ false | some d ↦ is_some d.autoscaler_config ]

-- `Autoscaled`
unfoldable pub autoscaled : List NodePool → List NodePool
unfolding is_autoscaled
autoscaled = keep_func is_autoscaled

abbrev pub is_endpoint : NodeType → Bool
is_endpoint api_endpoint = true
is_endpoint _ = false

-- `EndpointNode`
unfoldable pub endpoint_node : NodePool → Option Node
endpoint_node np = find_func (λ n. is_endpoint n.node_type) np.nodes

-- `FindApiEndpoint`
unfoldable pub find_api_endpoint : List NodePool → Option (NodePool × Node)
unfolding endpoint_node
find_api_endpoint [] = none
find_api_endpoint (np ∷ nps) =
    let rest = find_api_endpoint nps in
    if np.is_control then elim (endpoint_node np) [ none ↦ rest | some n ↦ some (np, n) ] else rest

-- `FirstControlNode`
unfoldable pub first_control_node : List NodePool → Option Node
first_control_node [] = none
first_control_node (np ∷ nps) =
    let rest = first_control_node nps in
    if np.is_control then elim np.nodes [ [] ↦ rest | n ∷ _ ↦ some n ] else rest
