-- ===== src/Pools/Counted.antt =====
-- The count of a dynamic nodepool is the number of its nodes, as an int32, after each operation.
use claudie.Prelude.{
  ℕ, ◌≡◌, refl, false, List, [], ◌∷◌, some, String, All, length, length-append,
  length-delete_func-keep_func, contains, find_func, arith, i32, i32_add, Bool-cases, inl, inr,
  Option-cases, ◌+◌, ◌≢◌, ◌&&◌, not,
}
use claudie.Spec.{Node, NodePool, DynamicNodePool, PoolType, dynamic_of}
use claudie.Pools.{
  delete_node_by_name, without_node, remove_node, forget_node, named, append_dynamic_nodes,
  is_empty,
}
use claudie.Pools.Edit.{
  copy_nodes, copy_from, add_node, count_node, kinds_differ, delete_nodes, hit, forget_nodes,
}

abbrev pub Counts : PoolType → ℕ → Type 0
Counts PoolType.unset n = Unit
Counts (PoolType.dynamic d) n = d.count ≡ i32 n
Counts (PoolType.static s) n = Unit

-- The count of the nodepool is right.
abbrev pub IsCounted : NodePool → Type 0
IsCounted np = Counts np.type (length np.nodes)

forget_nodes-Counts :
    (t : PoolType) (deleted : List Node) (n m : ℕ)
    → Counts t n
    → m + length deleted ≡ n
    → Counts (forget_nodes deleted t) m
forget_nodes-Counts PoolType.unset deleted n m h e = tt
forget_nodes-Counts (PoolType.dynamic d) deleted n m h e = omega arith
forget_nodes-Counts (PoolType.static s) deleted n m h e = tt

-- Deleting nodes by name keeps the count right.
pub delete_nodes-IsCounted :
    (np : NodePool) (names : List String) → IsCounted np → IsCounted (delete_nodes np names)
unfolding delete_nodes
delete_nodes-IsCounted np names h =
    forget_nodes-Counts np.type _ _ _ h (length-delete_func-keep_func (hit names) np.nodes)

append-Counts :
    (t : PoolType) (n m : ℕ)
    → Counts t n
    → (d : DynamicNodePool) → dynamic_of t ≡ some d
    → i32_add d.count (i32 m) ≡ i32 (n + m)
append-Counts PoolType.unset n m h d e = absurd (cc e)
append-Counts (PoolType.dynamic c) n m h d e =
    let same : c ≡ d = ground arith in rw (← same) (omega arith)
append-Counts (PoolType.static s) n m h d e = absurd (cc e)

-- Appending nodes to a dynamic nodepool keeps the count right.
pub append_dynamic_nodes-IsCounted :
    (np : NodePool) (ns : List Node) → IsCounted np → IsCounted (append_dynamic_nodes np ns)
unfolding append_dynamic_nodes
append_dynamic_nodes-IsCounted np ns h = elim (Option-cases (dynamic_of np.type)) [
  | inl e ↦ rw (e, append_dynamic_nodes) h
  | inr (d, e) ↦
      rw (e, append_dynamic_nodes, length-append np.nodes ns)
        (append-Counts np.type (length np.nodes) (length ns) h d e)
]

-- `n` is counted in `dst` as the nodepool it comes from is counted.
count_node-Counts :
    (src dst : PoolType) (n : Node) (k : ℕ)
    → src ≢ PoolType.unset
    → kinds_differ dst src ≡ false
    → Counts dst k
    → Counts (count_node src n dst) (k + 1) × (kinds_differ (count_node src n dst) src ≡ false)
count_node-Counts PoolType.unset dst n k u e h = absurd (u refl)
count_node-Counts (PoolType.dynamic _) PoolType.unset n k u e h = absurd (cc e)
count_node-Counts (PoolType.dynamic _) (PoolType.dynamic d) n k u e h = (omega arith, refl)
count_node-Counts (PoolType.dynamic _) (PoolType.static d) n k u e h = absurd (cc e)
count_node-Counts (PoolType.static _) PoolType.unset n k u e h = absurd (cc e)
count_node-Counts (PoolType.static _) (PoolType.dynamic d) n k u e h = absurd (cc e)
count_node-Counts (PoolType.static _) (PoolType.static d) n k u e h = (tt, refl)

copy_from-IsCounted :
    (src : PoolType) (names : List String) (ns : List Node) (dst : NodePool)
    → src ≢ PoolType.unset
    → kinds_differ dst.type src ≡ false
    → IsCounted dst
    → IsCounted (copy_from src names ns dst)
unfolding copy_from
copy_from-IsCounted src names [] dst u e h = h
copy_from-IsCounted src names (n ∷ ns) dst u e h = elim (Bool-cases (contains n.name names)) [
  | inl c ↦
      let (right, same) = count_node-Counts src dst.type n (length dst.nodes) u e h in
      rw (c, copy_from)
        (copy_from-IsCounted src names ns (add_node src n dst) u same
          (rw (length-append dst.nodes (n ∷ [])) right))
  | inr c ↦ rw (c, copy_from) (copy_from-IsCounted src names ns dst u e h)
]

-- Copying nodes from a dynamic or static nodepool keeps the count of the receiving nodepool right.
pub copy_nodes-IsCounted :
    (dst src : NodePool) (names : List String)
    → src.type ≢ PoolType.unset
    → IsCounted dst
    → IsCounted (copy_nodes dst src names)
unfolding copy_nodes
copy_nodes-IsCounted dst src names u h = elim (Bool-cases (kinds_differ dst.type src.type)) [
  | inl e ↦ rw (e, copy_nodes) h
  | inr e ↦ rw (e, copy_nodes) (copy_from-IsCounted src.type names src.nodes dst u e h)
]

length-remove_node :
    (name : String) (ns : List Node) (n : Node)
    → find_func (named name) ns ≡ some n
    → length (remove_node name ns) + 1 ≡ length ns
unfolding remove_node find_func
length-remove_node name [] n e = absurd (cc e)
length-remove_node name (x ∷ ns) n e = ground (arith, length-remove_node name ns n)

without_node-IsCounted :
    (name : String) (n : Node) (np : NodePool)
    → find_func (named name) np.nodes ≡ some n
    → IsCounted np
    → IsCounted (without_node name n np)
unfolding without_node
without_node-IsCounted name n np e h =
    forget_node-Counts np.type (length np.nodes) _ h (length-remove_node name np.nodes n e)
  where
    forget_node-Counts :
        (t : PoolType) (k m : ℕ) → Counts t k → m + 1 ≡ k → Counts (forget_node n t) m
    forget_node-Counts PoolType.unset k m h e = tt
    forget_node-Counts (PoolType.dynamic d) k m h e = omega arith
    forget_node-Counts (PoolType.static s) k m h e = tt

-- Deleting a node by name from a list of nodepools keeps every count right.
pub delete_node_by_name-IsCounted :
    (nps : List NodePool) (name : String) (keep : List String)
    → All IsCounted nps
    → All IsCounted (delete_node_by_name nps name keep)
unfolding delete_node_by_name
delete_node_by_name-IsCounted [] name keep h = tt
delete_node_by_name-IsCounted (np ∷ nps) name keep (h, hs) =
    elim (Option-cases (find_func (named name) np.nodes)) [
      | inl e ↦ rw (e, delete_node_by_name) (h, delete_node_by_name-IsCounted nps name keep hs)
      | inr (n, e) ↦
          elim (Bool-cases
            (is_empty (without_node name n np).nodes && not (contains np.name keep))) [
              | inl c ↦ rw (e, delete_node_by_name) (rw c hs)
              | inr c ↦
                  rw (e, delete_node_by_name) (rw c (without_node-IsCounted name n np e h, hs))
            ]
    ]
