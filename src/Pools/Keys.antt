-- ===== src/Pools/Keys.antt =====
-- The keys of a static nodepool follow its nodes.
use claudie.Prelude.{
  ◌≡◌, refl, List, [], ◌∷◌, map, none, some, String, Dict, lookup, insert, erase, lookup-insert,
  lookup-erase, contains, keep_func, eq_iff, arith, if◌then◌else◌, not,
}
use claudie.Spec.{Node, NodePool, StaticNodePool, PoolType}
use claudie.Spec.Request.{key_or_empty}
use claudie.Pools.{keys_of, partial_copy_with_node_exclusion}
use claudie.Pools.Edit.{erase_keys, delete_nodes, hit}

abbrev pub endpoints : List Node → List String
endpoints = map (λ n. n.public)

lookup-erase_keys :
    (k : String) (ns : List Node) (m : Dict String)
    → lookup k (erase_keys ns m) ≡ (if contains k (endpoints ns) then none else lookup k m)
unfolding contains
lookup-erase_keys k [] m = refl
lookup-erase_keys k (n ∷ ns) m =
    ground (arith, lookup-erase_keys k ns (erase n.public m), lookup-erase n.public k m)

lookup-keys_of :
    (k : String) (node_keys : Dict String) (ns : List Node) (acc : Dict String)
    → lookup k (keys_of node_keys ns acc)
      ≡ (if contains k (endpoints ns) then some (key_or_empty k node_keys) else lookup k acc)
unfolding keys_of contains
lookup-keys_of k m [] acc = refl
lookup-keys_of k m (n ∷ ns) acc = ground (
  arith,
  eq_iff n.public k,
  lookup-keys_of k m ns (insert n.public (key_or_empty n.public m) acc),
  lookup-insert n.public k (key_or_empty n.public m) acc,
)

-- After nodes of a static nodepool are deleted by name, the keys of exactly their endpoints are
-- gone; in the copy without them, exactly the endpoints of the other nodes have a key, as before.
pub lookup-node_keys :
    (np : NodePool) (s : StaticNodePool) (names : List String)
    → np.type ≡ PoolType.static s
    → (deleted copied : StaticNodePool) × ((delete_nodes np names).type ≡ PoolType.static deleted)
      × ((partial_copy_with_node_exclusion np names).type ≡ PoolType.static copied)
      × ((k : String)
          → (lookup k deleted.node_keys ≡ (
              if contains k (endpoints (keep_func (hit names) np.nodes))
              then none
              else lookup k s.node_keys))
            × (lookup k copied.node_keys ≡ (
                if contains k (endpoints (keep_func (λ n. not (contains n.name names)) np.nodes))
                then some (key_or_empty k s.node_keys)
                else none)))
unfolding delete_nodes partial_copy_with_node_exclusion lookup
lookup-node_keys np s names e = (
  record s { node_keys = erase_keys (keep_func (hit names) np.nodes) s.node_keys },
  record s {
    node_keys = keys_of s.node_keys (keep_func (λ n. not (contains n.name names)) np.nodes) [];
  },
  ground arith,
  ground arith,
  λ k. (lookup-erase_keys k _ s.node_keys, lookup-keys_of k s.node_keys _ []),
)
