-- ===== src/Pools/Split.antt =====
-- Deleting nodes and copying a nodepool without them agree, and the two partial copies split it.
use claudie.Prelude.{
  ℕ, ◌≡◌, refl, ◌+◌, not, List, [], ◌∷◌, String, length, contains, keep_func, delete_func, arith,
  i32, ap, ap₂, sym, subst, length-delete_func-keep_func, find_func, none, eq_iff, if◌then◌else◌,
}
use claudie.Spec.{Node, NodePool, DynamicNodePool, PoolType}
use claudie.Pools.{partial_copy_with_node_exclusion, partial_copy_with_node_filter, type_for, named}
use claudie.Pools.Edit.{delete_nodes, hit, forget_nodes}
use claudie.Pools.Counted.{IsCounted, Counts}

keep_func-not :
    (names : List String) (ns : List Node)
    → keep_func (λ n. not (contains n.name names)) ns ≡ delete_func (hit names) ns
unfolding keep_func delete_func
keep_func-not names [] = refl
keep_func-not names (n ∷ ns) = ground (arith, keep_func-not names ns)

forget_nodes-type_for :
    (d : DynamicNodePool) (deleted kept : List Node) (n : ℕ)
    → d.count ≡ i32 n
    → length kept + length deleted ≡ n
    → forget_nodes deleted (PoolType.dynamic d) ≡ type_for (PoolType.dynamic d) kept
unfolding type_for
forget_nodes-type_for d deleted kept n h e =
    ap (λ c. PoolType.dynamic (record d { count = c })) (omega arith)

-- On a dynamic nodepool whose count is right, deleting nodes by name and copying the nodepool
-- without them give the same nodepool.
pub delete_nodes-eq-exclusion :
    (np : NodePool) (d : DynamicNodePool) (names : List String)
    → np.type ≡ PoolType.dynamic d
    → IsCounted np
    → delete_nodes np names ≡ partial_copy_with_node_exclusion np names
unfolding delete_nodes partial_copy_with_node_exclusion
delete_nodes-eq-exclusion np d names e h =
    let deleted = keep_func (hit names) np.nodes in
    let kept = keep_func (λ (n : Node). not (contains n.name names)) np.nodes in
    let split : length kept + length deleted ≡ length np.nodes =
      rw (keep_func-not names np.nodes) (length-delete_func-keep_func (hit names) np.nodes) in
    let right : Counts (PoolType.dynamic d) (length np.nodes) =
      subst (λ t. Counts t (length np.nodes)) e h in
    let same : forget_nodes deleted np.type ≡ type_for np.type kept =
      rw e (forget_nodes-type_for d deleted kept _ right split) in
    ap₂ (λ t ns. record np { type = t; nodes = ns }) same (sym (keep_func-not names np.nodes))

find_func-filtered :
    (names : List String) (name : String) (ns : List Node)
    → find_func (named name) (keep_func (λ (n : Node). contains n.name names) ns)
      ≡ (if contains name names then find_func (named name) ns else none)
unfolding find_func keep_func
find_func-filtered names name [] = ground arith
find_func-filtered names name (n ∷ ns) =
    ground (arith, eq_iff n.name name, find_func-filtered names name ns)

find_func-excluded :
    (names : List String) (name : String) (ns : List Node)
    → find_func (named name) (keep_func (λ (n : Node). not (contains n.name names)) ns)
      ≡ (if contains name names then none else find_func (named name) ns)
unfolding find_func keep_func
find_func-excluded names name [] = ground arith
find_func-excluded names name (n ∷ ns) =
    ground (arith, eq_iff n.name name, find_func-excluded names name ns)

-- The two partial copies by the same names split the nodes of the nodepool: a node of a listed name
-- is found in the one that filters, as in the nodepool, and not in the one that excludes, and a node
-- of any other name the other way round.
pub partial_copies_split :
    (np : NodePool) (names : List String) (name : String)
    → (find_func (named name) (partial_copy_with_node_filter np names).nodes
        ≡ (if contains name names then find_func (named name) np.nodes else none))
      × (find_func (named name) (partial_copy_with_node_exclusion np names).nodes
          ≡ (if contains name names then none else find_func (named name) np.nodes))
unfolding partial_copy_with_node_exclusion partial_copy_with_node_filter
partial_copies_split np names name =
    (find_func-filtered names name np.nodes, find_func-excluded names name np.nodes)
