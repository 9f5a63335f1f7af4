-- ===== src/Manager/Diff/Pools.antt =====
-- services/manager/internal/service/diff.go: NodePoolsView, and the loops over the nodepools of two
-- states that KubernetesDiff and LoadBalancersDiff share.
use claudie.Prelude.{
  ◌==◌, Bool, true, false, ◌&&◌, List, [], ◌∷◌, ◌++◌, Option, none, some, String, Dict, insert, map,
  str_eq, is_some, if◌then◌else◌,
}
use claudie.Spec.{
  NodePool, PoolType, Node, NodeStatus, marked_for_deletion, AutoscalerConf, TemplateRepository,
  DynamicNodePool, dynamic_of,
}
use claudie.Manager.Diff.{NodePoolsViewType, nodes_of}

abbrev pub Views : Type 0
Views = NodePoolsViewType × NodePoolsViewType

abbrev pub node_names : NodePool → List String
node_names np = map (λ n. n.name) np.nodes

abbrev pub view_pool : PoolType → NodePool → Views → Option Views
view_pool (PoolType.dynamic _) np (dyn, stt) = some (insert np.name (node_names np) dyn, stt)
view_pool (PoolType.static _) np (dyn, stt) = some (dyn, insert np.name (node_names np) stt)
view_pool PoolType.unset np views = none

-- The loop of `NodePoolsView`; `none` is its panic on an unsupported type.
unfoldable pub view_pools : List NodePool → Views → Option Views
view_pools [] views = some views
view_pools (np ∷ nps) views = elim (view_pool np.type np views) [
  | none ↦ none
  | some views' ↦ view_pools nps views'
]

-- `NodePoolsView`: the dynamic nodepools, and the static ones.
abbrev pub node_pools_view : List NodePool → Option Views
node_pools_view nps = view_pools nps ([], [])

-- `m[k] = append(m[k], v)`
abbrev pub append_at : String → String → NodePoolsViewType → NodePoolsViewType
append_at k v view = insert k (nodes_of k view ++ v ∷ []) view

abbrev pub is_marked : NodeStatus → Bool
is_marked marked_for_deletion = true
is_marked _ = false

-- `isPending`, for nodes of one name.
abbrev pub is_pending : Node → Node → Bool
is_pending c d = str_eq c.name d.name && (is_marked c.status && is_marked d.status)

-- A pending deletion is put to the dynamic ones, or else to the static ones.
abbrev pub pend : Bool → String → String → Views → Views
pend true pool n (dyn, stt) = (append_at pool n dyn, stt)
pend false pool n (dyn, stt) = (dyn, append_at pool n stt)

-- The loop over the desired nodes.
unfoldable pub pending_node : NodePool → Node → List Node → Views → Views
pending_node d cn [] views = views
pending_node d cn (dn ∷ dns) views =
    pending_node d cn dns
      (if is_pending cn dn then pend (is_some (dynamic_of d.type)) d.name dn.name views else views)

-- The loop over the current nodes.
unfoldable pub pending_nodes : NodePool → List Node → Views → Views
unfolding pending_node
pending_nodes d [] views = views
pending_nodes d (cn ∷ cns) views = pending_nodes d cns (pending_node d cn d.nodes views)

-- The loops over the nodepools of the two states, with `step` for two of one name.
unfoldable pub over_desired {ℓ} :
    {A : Type ℓ} → (NodePool → NodePool → A → A) → NodePool → List NodePool → A → A
over_desired step c [] acc = acc
over_desired step c (d ∷ ds) acc =
    over_desired step c ds (if str_eq c.name d.name then step c d acc else acc)

unfoldable pub over_pairs {ℓ} :
    {A : Type ℓ} → (NodePool → NodePool → A → A) → List NodePool → List NodePool → A → A
unfolding over_desired
over_pairs step [] ds acc = acc
over_pairs step (c ∷ cs) ds acc = over_pairs step cs ds (over_desired step c ds acc)

-- The loops that find the nodes marked for deletion in both states.
unfoldable pub pending_deletions : List NodePool → List NodePool → Views
unfolding over_pairs pending_nodes
pending_deletions cs ds = over_pairs (λ c d views. pending_nodes d c.nodes views) cs ds ([], [])

abbrev pub roll :
    DynamicNodePool → DynamicNodePool → String → Dict TemplateRepository → Dict TemplateRepository
roll c d name acc =
    if str_eq c.provider.templates.commit_hash d.provider.templates.commit_hash
    then acc
    else insert name d.provider.templates acc

-- Something is done for two dynamic nodepools.
abbrev pub both_dynamic {ℓ} :
    {A : Type ℓ} → (DynamicNodePool → DynamicNodePool → A → A) → PoolType → PoolType → A → A
both_dynamic step (PoolType.dynamic c) (PoolType.dynamic d) acc = step c d acc
both_dynamic step _ _ acc = acc

abbrev pub roll_pool : NodePool → NodePool → Dict TemplateRepository → Dict TemplateRepository
roll_pool c d acc = both_dynamic (λ x y. roll x y d.name) c.type d.type acc

-- The loops that find the nodepools of other templates.
unfoldable pub rolling_updates : List NodePool → List NodePool → Dict TemplateRepository
unfolding over_pairs
rolling_updates cs ds = over_pairs roll_pool cs ds []

-- The nodepools that change to autoscaled ones, and to fixed ones.
abbrev pub Transitions : Type 0
Transitions = Dict AutoscalerConf × Dict (Unit {0})

abbrev pub same_range : AutoscalerConf → AutoscalerConf → Bool
same_range c d = c.min == d.min && c.max == d.max

abbrev pub transition :
    Option AutoscalerConf → Option AutoscalerConf → String → Transitions → Transitions
transition none none name acc = acc
transition none (some d) name (auto, fixed) = (insert name d auto, fixed)
transition (some c) none name (auto, fixed) = (auto, insert name tt fixed)
transition (some c) (some d) name (auto, fixed) =
    if same_range c d then (auto, fixed) else (insert name d auto, fixed)

abbrev pub transition_pool : NodePool → NodePool → Transitions → Transitions
transition_pool c d acc =
    both_dynamic (λ x y. transition x.autoscaler_config y.autoscaler_config d.name) c.type d.type
      acc

unfoldable pub transitions : List NodePool → List NodePool → Transitions
unfolding over_pairs
transitions cs ds = over_pairs transition_pool cs ds ([], [])
