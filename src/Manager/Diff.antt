-- ===== src/Manager/Diff.antt =====
-- services/manager/internal/service/diff.go: NodePoolsDiff, the difference of two views of nodepools.
-- A view maps the name of a nodepool to the names of its nodes. `range` loops run over the entries
-- of the list, which stands for any order.
pub mod Views
pub mod Difference
pub mod Endpoint
pub mod Pools
pub mod Labels
pub mod Kubernetes
pub mod LoadBalancers
use claudie.Prelude.{
  Bool, ◌&&◌, not, List, [], ◌∷◌, Option, none, some, String, Dict, lookup, insert, erase, contains,
  delete_func, has, if◌then◌else◌,
}
use claudie.Pools.{is_empty}

abbrev pub NodePoolsViewType : Type 0
NodePoolsViewType = Dict (List String)

pub record NodePoolsDiffResult : Type 0 where
  pub partially_deleted : NodePoolsViewType
  pub deleted : NodePoolsViewType
  pub partially_added : NodePoolsViewType
  pub added : NodePoolsViewType

-- `NodePoolsDiffResult.IsEmpty`
unfoldable pub diff_is_empty : NodePoolsDiffResult → Bool
diff_is_empty r =
    (is_empty r.deleted && is_empty r.partially_deleted)
    && (is_empty r.added && is_empty r.partially_added)

-- The nodepools of `entries` that `other` lacks, put into `acc`.
unfoldable pub absent :
    NodePoolsViewType → NodePoolsViewType → NodePoolsViewType → NodePoolsViewType
absent other [] acc = acc
absent other ((name, nodes) ∷ entries) acc =
    absent other entries (if has name other then acc else insert name nodes acc)

-- The loop that deletes the keys of `gone`.
unfoldable pub without : NodePoolsViewType → NodePoolsViewType → NodePoolsViewType
without [] view = view
without ((name, _) ∷ gone) view = without gone (erase name view)

-- `view[name]`, which is nil for an absent name.
abbrev pub nodes_of : String → NodePoolsViewType → List String
nodes_of name view = elim (lookup name view) [ none ↦ [] | some nodes ↦ nodes ]

-- The nodes that are not among the others.
unfoldable pub missing_nodes : List String → List String → List String
missing_nodes others nodes = delete_func (λ n. contains n others) nodes

-- A nodepool gets an entry with its first missing node.
abbrev pub note : String → List String → NodePoolsViewType → NodePoolsViewType
note name [] acc = acc
note name (n ∷ ns) acc = insert name (n ∷ ns) acc

-- The nodes that the nodepools of `entries` have and those of `other` lack.
unfoldable pub partial :
    NodePoolsViewType → NodePoolsViewType → NodePoolsViewType → NodePoolsViewType
unfolding missing_nodes
partial other [] acc = acc
partial other ((name, nodes) ∷ entries) acc =
    partial other entries (note name (missing_nodes (nodes_of name other) nodes) acc)

-- The loop that deletes the nodes of `gone` from the view.
unfoldable pub drop_nodes : NodePoolsViewType → NodePoolsViewType → NodePoolsViewType
unfolding missing_nodes
drop_nodes [] view = view
drop_nodes ((name, nodes) ∷ gone) view =
    drop_nodes gone (insert name (missing_nodes nodes (nodes_of name view)) view)

-- `NodePoolsDiff`: the result, and what it leaves of the two views.
unfoldable pub node_pools_diff :
    NodePoolsViewType
    → NodePoolsViewType
    → NodePoolsDiffResult × NodePoolsViewType × NodePoolsViewType
unfolding absent without partial drop_nodes
node_pools_diff old desired =
    let deleted = absent desired old [] in
    let old1 = without deleted old in
    let added = absent old1 desired [] in
    let desired1 = without added desired in
    let partially_deleted = partial desired1 old1 [] in
    let old2 = drop_nodes partially_deleted old1 in
    let partially_added = partial old2 desired1 [] in
    (
      record {
        partially_deleted = partially_deleted;
        deleted = deleted;
        partially_added = partially_added;
        added = added;
      },
      old2,
      drop_nodes partially_added desired1,
    )
