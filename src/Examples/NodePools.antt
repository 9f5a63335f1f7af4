-- ===== src/Examples/NodePools.antt =====
-- Editing nodepools: witnesses.
use claudie.Prelude.{
  find_func, ◌≡◌, ◌≢◌, refl, [], ◌∷◌, none, some, String, All, lookup, contains, keep_func, not,
  if◌then◌else◌,
}
use claudie.Spec.{StaticNodePool, PoolType}
use claudie.Spec.Request.{key_or_empty}
use claudie.Pools.{
  named, delete_node_by_name, append_dynamic_nodes, partial_copy_with_node_exclusion,
  partial_copy_with_node_filter,
}
use claudie.Pools.Edit.{delete_nodes, copy_nodes, hit}
use claudie.Pools.Counted.{
  IsCounted, delete_nodes-IsCounted, append_dynamic_nodes-IsCounted, copy_nodes-IsCounted,
  delete_node_by_name-IsCounted,
}
use claudie.Pools.Split.{delete_nodes-eq-exclusion, partial_copies_split}
use claudie.Pools.Keys.{endpoints, lookup-node_keys}
use claudie.Examples.Data.{node, nodes, workers, servers, stt, dyn}

delete_nodes-IsCounted_example : IsCounted (delete_nodes workers ("w-1" ∷ []))
delete_nodes-IsCounted_example = delete_nodes-IsCounted workers ("w-1" ∷ []) refl

append_dynamic_nodes-IsCounted_example :
    IsCounted (append_dynamic_nodes workers (node "w-3" "1.1.1.3" ∷ []))
append_dynamic_nodes-IsCounted_example =
    append_dynamic_nodes-IsCounted workers (node "w-3" "1.1.1.3" ∷ []) refl

is_set : PoolType.dynamic dyn ≢ PoolType.unset
is_set e = absurd (cc e)

copy_nodes-IsCounted_example : IsCounted (copy_nodes workers workers ("w-2" ∷ []))
copy_nodes-IsCounted_example = copy_nodes-IsCounted workers workers ("w-2" ∷ []) is_set refl

delete_node_by_name-IsCounted_example :
    All IsCounted (delete_node_by_name (servers ∷ workers ∷ []) "w-2" [])
delete_node_by_name-IsCounted_example =
    delete_node_by_name-IsCounted (servers ∷ workers ∷ []) "w-2" [] (tt, (refl, tt))

delete_nodes-eq-exclusion_example :
    delete_nodes workers ("w-1" ∷ []) ≡ partial_copy_with_node_exclusion workers ("w-1" ∷ [])
delete_nodes-eq-exclusion_example = delete_nodes-eq-exclusion workers dyn ("w-1" ∷ []) refl refl

partial_copies_split_example :
    (find_func (named "w-1") (partial_copy_with_node_filter workers ("w-1" ∷ [])).nodes
      ≡ (if contains "w-1" ("w-1" ∷ []) then find_func (named "w-1") workers.nodes else none))
    × (find_func (named "w-1") (partial_copy_with_node_exclusion workers ("w-1" ∷ [])).nodes
        ≡ (if contains "w-1" ("w-1" ∷ []) then none else find_func (named "w-1") workers.nodes))
partial_copies_split_example = partial_copies_split workers ("w-1" ∷ []) "w-1"

lookup-node_keys_example :
    (deleted copied : StaticNodePool) × ((delete_nodes servers ("w-1" ∷ [])).type
      ≡ PoolType.static deleted)
    × ((partial_copy_with_node_exclusion servers ("w-1" ∷ [])).type ≡ PoolType.static copied)
    × ((k : String)
        → (lookup k deleted.node_keys ≡ (
            if contains k (endpoints (keep_func (hit ("w-1" ∷ [])) nodes))
            then none
            else lookup k stt.node_keys))
          × (lookup k copied.node_keys ≡ (
              if contains k (endpoints (keep_func (λ n. not (contains n.name ("w-1" ∷ []))) nodes))
              then some (key_or_empty k stt.node_keys)
              else none)))
lookup-node_keys_example = lookup-node_keys servers stt ("w-1" ∷ []) refl
