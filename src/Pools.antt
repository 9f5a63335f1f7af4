-- ===== src/Pools.antt =====
-- internal/nodepools/nodepools.go: the operations that change a nodepool or select from one.
-- Nodepools are values here: what the code clones and what it shares is the same value. A nil map
-- of keys is the empty map.
pub mod Edit
pub mod Counted
pub mod Keys
pub mod Split
use claudie.Prelude.{
  ℕ, ◌+◌, Bool, true, false, ◌&&◌, ◌||◌, not, List, [], ◌∷◌, ◌++◌, map, Option, none, some, String,
  Dict, length, contains, contains_func, str_eq, delete_func, keep_func, find_func, insert, erase,
  is_some, is_none, if◌then◌else◌, i32, i32_add, i32_sub,
}
use claudie.Spec.{
  Node, NodePool, DynamicNodePool, StaticNodePool, PoolType, api_endpoint, NodeType, dynamic_of,
  static_of,
}
use claudie.Spec.Request.{key_or_empty}

-- `DeleteByName`: the first nodepool of the name goes.
unfoldable pub delete_by_name : List NodePool → String → List NodePool
delete_by_name [] name = []
delete_by_name (np ∷ nps) name =
    let rest = delete_by_name nps name in if str_eq np.name name then nps else np ∷ rest

abbrev pub is_empty {ℓ} : {A : Type ℓ} → List A → Bool
is_empty [] = true
is_empty (_ ∷ _) = false

abbrev pub named : String → Node → Bool
named name n = str_eq n.name name

-- `slices.Delete(np.Nodes, j, j+1)` at the first node of the name.
unfoldable pub remove_node : String → List Node → List Node
remove_node name [] = []
remove_node name (n ∷ ns) = let rest = remove_node name ns in if named name n then ns else n ∷ rest

-- The key of the node goes, or the count falls by one.
abbrev pub forget_node : Node → PoolType → PoolType
forget_node n PoolType.unset = PoolType.unset
forget_node n (PoolType.static s) =
    PoolType.static (record s { node_keys = erase n.public s.node_keys })
forget_node n (PoolType.dynamic d) = PoolType.dynamic (record d { count = i32_sub d.count 1 })

-- The nodepool without the node at index `j`.
unfoldable pub without_node : String → Node → NodePool → NodePool
unfolding remove_node
without_node name n np = record np {
  type = forget_node n np.type;
  nodes = remove_node name np.nodes;
}

-- `DeleteNodeByName`
unfoldable pub delete_node_by_name : List NodePool → String → List String → List NodePool
unfolding without_node
delete_node_by_name [] name keep = []
delete_node_by_name (np ∷ nps) name keep = elim (find_func (named name) np.nodes) [
  | none ↦ np ∷ delete_node_by_name nps name keep
  | some n ↦
      let np' = without_node name n np in
      if is_empty np'.nodes && not (contains np.name keep) then nps else np' ∷ nps
]

-- `AppendDynamicNodes`
unfoldable pub append_dynamic_nodes : NodePool → List Node → NodePool
append_dynamic_nodes dst nodes = elim (dynamic_of dst.type) [
  | none ↦ dst
  | some d ↦ record dst {
    type = PoolType.dynamic (record d { count = i32_add d.count (i32 (length nodes)) });
    nodes = dst.nodes ++ nodes;
  }
]

-- The keys of the given nodes, looked up in `node_keys`.
unfoldable pub keys_of : Dict String → List Node → Dict String → Dict String
keys_of node_keys [] acc = acc
keys_of node_keys (n ∷ ns) acc =
    keys_of node_keys ns (insert n.public (key_or_empty n.public node_keys) acc)

-- The type of a copy that holds the given nodes.
unfoldable pub type_for : PoolType → List Node → PoolType
unfolding keys_of
type_for PoolType.unset nodes = PoolType.unset
type_for (PoolType.dynamic d) nodes = PoolType.dynamic (record d { count = i32 (length nodes) })
type_for (PoolType.static s) nodes =
    PoolType.static (record s { node_keys = keys_of s.node_keys nodes [] })

-- `PartialCopyWithNodeExclusion`
unfoldable pub partial_copy_with_node_exclusion : NodePool → List String → NodePool
unfolding type_for
partial_copy_with_node_exclusion np nodes =
    let kept = keep_func (λ n. not (contains n.name nodes)) np.nodes in
    record np { type = type_for np.type kept; nodes = kept }

-- `PartialCopyWithNodeFilter`
unfoldable pub partial_copy_with_node_filter : NodePool → List String → NodePool
unfolding type_for
partial_copy_with_node_filter np nodes =
    let kept = keep_func (λ n. contains n.name nodes) np.nodes in
    record np { type = type_for np.type kept; nodes = kept }

-- `clear(s.NodeKeys)` and `maps.Copy`.
abbrev pub with_keys : Dict String → List Node → PoolType → PoolType
with_keys node_keys nodes PoolType.unset = PoolType.unset
with_keys node_keys nodes (PoolType.dynamic d) =
    PoolType.dynamic (record d { count = i32 (length nodes) })
with_keys node_keys nodes (PoolType.static s) = PoolType.static (record s { node_keys = node_keys })

-- `PartialCopyWithReplacedNodes`, which leaves the ssh port of the copy unset.
unfoldable pub partial_copy_with_replaced_nodes : NodePool → List Node → Dict String → NodePool
partial_copy_with_replaced_nodes np nodes node_keys = record np {
  type = with_keys node_keys nodes np.type;
  nodes = nodes;
  ssh_port = 0;
}
