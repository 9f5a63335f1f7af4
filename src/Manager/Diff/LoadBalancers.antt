-- ===== src/Manager/Diff/LoadBalancers.antt =====
-- services/manager/internal/service/diff.go: LoadBalancersDiff. `proto.Equal`, at settings and
-- at a DNS, is a parameter. `none` is a panic on a nodepool of no type. An entry of `Modified` has
-- no differences of nodepools where the code leaves them at their zero value.
pub mod Classes
pub mod Found
use claudie.Prelude.{
  ℕ, ◌==◌, ◌+◌, Bool, true, false, not, ◌&&◌, ◌||◌, List, [], ◌∷◌, ◌++◌, Option, none, some, String,
  Dict, insert, contains, contains_func, find_func, keep_func, delete_func, map, str_eq,
  if◌then◌else◌,
}
use claudie.Pools.{is_empty}
use claudie.Spec.{Role, Settings, Dns, LbCluster, lb_id, TemplateRepository}
use claudie.Store.Convert.{◌>>=◌}
use claudie.Manager.Diff.{NodePoolsViewType, NodePoolsDiffResult, node_pools_diff, diff_is_empty}
use claudie.Manager.Diff.Pools.{append_at, node_pools_view, pending_deletions, rolling_updates}
use claudie.Manager.Diff.Endpoint.{Answer, determine_lb_api_endpoint_change}

-- `proto.Equal`
pub record ProtoEqual : Type 0 where
  pub settings : Settings → Settings → Bool
  pub dns : Dns → Dns → Bool

pub record RolesDiff : Type 0 where
  pub added : List String
  pub deleted : List String
  pub target_pools_added : NodePoolsViewType
  pub target_pools_deleted : NodePoolsViewType
  pub internal_settings_changed : List String
  pub external_settings_changed : List String

pub record ModifiedLoadBalancer : Type 0 where
  pub current_idx : ℕ
  pub desired_idx : ℕ
  pub dns : Bool
  pub roles : RolesDiff
  pub dynamic : NodePoolsDiffResult
  pub static : NodePoolsDiffResult
  pub pending_dynamic_deletions : NodePoolsViewType
  pub pending_static_deletions : NodePoolsViewType
  pub rolling_update : Dict TemplateRepository

pub record LoadBalancerIdentifier : Type 0 where
  pub id : String
  pub index : ℕ

pub record LoadBalancersDiffResult : Type 0 where
  pub added : List LoadBalancerIdentifier
  pub deleted : List LoadBalancerIdentifier
  pub modified : Dict ModifiedLoadBalancer
  pub api_endpoint : Answer

-- `clusters.IndexLoadbalancerById`, counted from `i`, with the loadbalancer there; `none` for -1.
unfoldable pub index_loadbalancer_by_id : String → ℕ → List LbCluster → Option (ℕ × LbCluster)
index_loadbalancer_by_id target i [] = none
index_loadbalancer_by_id target i (lb ∷ lbs) =
    let later = index_loadbalancer_by_id target (i + 1) lbs in
    if str_eq (lb_id lb) target then some (i, lb) else later

-- The names of the roles that the others lack.
unfoldable pub roles_without : List Role → List Role → List String
unfolding delete_func contains_func
roles_without others roles =
    map (λ r. r.name) (delete_func (λ r. contains_func (λ o. str_eq r.name o.name) others) roles)

-- The loops over `TargetPools`.
unfoldable pub append_missing :
    String → List String → List String → NodePoolsViewType → NodePoolsViewType
unfolding contains
append_missing role others [] acc = acc
append_missing role others (p ∷ ps) acc =
    append_missing role others ps (if contains p others then acc else append_at role p acc)

-- `len(xs) > 0`
abbrev pub some_left {ℓ} : {A : Type ℓ} → List A → Bool
some_left xs = not (is_empty xs)

abbrev pub no_pools : NodePoolsDiffResult
no_pools = record { partially_deleted = []; deleted = []; partially_added = []; added = [] }

-- "Find any added."
unfoldable pub added_from :
    ℕ → List LbCluster → List LbCluster → List LoadBalancerIdentifier → List LoadBalancerIdentifier
unfolding index_loadbalancer_by_id
added_from i [] old acc = acc
added_from i (n ∷ ns) old acc =
    added_from (i + 1) ns old (elim (index_loadbalancer_by_id (lb_id n) 0 old) [
      | none ↦ acc ++ record { id = lb_id n; index = i } ∷ []
      | some _ ↦ acc
    ])

abbrev pub Changes : Type 0
Changes = List LoadBalancerIdentifier × Dict ModifiedLoadBalancer

module _ (eq : ProtoEqual) where
  abbrev pub internal_changes : Role → Role → Bool
  internal_changes o n =
      not (o.target_port == n.target_port) || not (eq.settings o.settings n.settings)

  abbrev pub external_changes : Role → Role → Bool
  external_changes o n = not (o.port == n.port) || not (str_eq o.protocol n.protocol)

  abbrev pub named_if : Bool → String → List String → List String
  named_if b n acc = if b then acc ++ n ∷ [] else acc

  -- A role that is in both states.
  abbrev pub diff_role : Role → Role → RolesDiff → RolesDiff
  diff_role o n acc = record acc {
    internal_settings_changed =
        named_if (internal_changes o n) n.name acc.internal_settings_changed;
    external_settings_changed =
        named_if (external_changes o n) n.name acc.external_settings_changed;
    target_pools_deleted =
        append_missing n.name n.target_pools o.target_pools acc.target_pools_deleted;
    target_pools_added = append_missing n.name o.target_pools n.target_pools acc.target_pools_added;
  }

  abbrev pub diff_found_role : Role → Option Role → RolesDiff → RolesDiff
  diff_found_role o none acc = acc
  diff_found_role o (some n) acc = diff_role o n acc

  -- The loop over the old roles, each with the first desired role of its name.
  unfoldable pub diff_each_role : List Role → List Role → RolesDiff → RolesDiff
  unfolding find_func append_missing
  diff_each_role [] desired acc = acc
  diff_each_role (o ∷ os) desired acc =
      diff_each_role os desired
        (diff_found_role o (find_func (λ n. str_eq n.name o.name) desired) acc)

  unfoldable pub roles_diff : List Role → List Role → RolesDiff
  unfolding roles_without diff_each_role
  roles_diff old desired = diff_each_role old desired (record {
    added = roles_without old desired;
    deleted = roles_without desired old;
    target_pools_added = [];
    target_pools_deleted = [];
    internal_settings_changed = [];
    external_settings_changed = [];
  })

  -- The `switch` over the DNS of both states.
  unfoldable pub dns_changed : Option Dns → Option Dns → Bool
  dns_changed none none = false
  dns_changed none (some _) = true
  dns_changed (some _) none = true
  dns_changed (some o) (some d) =
      not (str_eq o.provider.spec_name d.provider.spec_name && eq.dns o d)

  -- `modified`, of an entry that holds all the differences.
  unfoldable pub is_modified : ModifiedLoadBalancer → Bool
  unfolding diff_is_empty
  is_modified m =
      (((some_left m.roles.added || some_left m.roles.deleted)
          || (some_left m.roles.internal_settings_changed
              || some_left m.roles.external_settings_changed))
        || ((some_left m.roles.target_pools_added || some_left m.roles.target_pools_deleted)
            || m.dns))
      || (((some_left m.pending_dynamic_deletions || some_left m.pending_static_deletions)
            || some_left m.rolling_update)
          || (not (diff_is_empty m.dynamic) || not (diff_is_empty m.static)))

  -- The entry that is stored. A difference of static nodepools is stored as that of the dynamic ones.
  abbrev pub stored_entry : ModifiedLoadBalancer → ModifiedLoadBalancer
  stored_entry m = record m {
    dynamic = if diff_is_empty m.dynamic then no_pools else m.dynamic;
    static = if diff_is_empty m.static then no_pools else m.dynamic;
  }

  -- The differences of two loadbalancers of one id.
  unfoldable pub diff_entry : ℕ → LbCluster → ℕ → LbCluster → Option ModifiedLoadBalancer
  unfolding roles_diff dns_changed
  diff_entry i old j desired = do
    o ← node_pools_view old.cluster_info.node_pools
    n ← node_pools_view desired.cluster_info.node_pools
    let pending = pending_deletions old.cluster_info.node_pools desired.cluster_info.node_pools
    some (record {
      current_idx = i;
      desired_idx = j;
      dns = dns_changed old.dns desired.dns;
      roles = roles_diff old.roles desired.roles;
      dynamic = (node_pools_diff o.0 n.0).0;
      static = (node_pools_diff o.1 n.1).0;
      pending_dynamic_deletions = pending.0;
      pending_static_deletions = pending.1;
      rolling_update = rolling_updates old.cluster_info.node_pools desired.cluster_info.node_pools;
    })

  abbrev pub keep_entry : String → ModifiedLoadBalancer → Changes → Changes
  keep_entry k m (gone, modified) =
      (gone, if is_modified m then insert k (stored_entry m) modified else modified)

  -- A loadbalancer of the old state, with the desired one of its id.
  abbrev pub diff_lb : ℕ → LbCluster → Option (ℕ × LbCluster) → Changes → Option Changes
  diff_lb i old none (gone, modified) =
      some (gone ++ record { id = lb_id old; index = i } ∷ [], modified)
  diff_lb i old (some (j, desired)) acc = elim (diff_entry i old j desired) [
    | none ↦ none
    | some m ↦ some (keep_entry (lb_id old) m acc)
  ]

  -- "Find any deleted/modified."
  unfoldable pub diff_old : ℕ → List LbCluster → List LbCluster → Changes → Option Changes
  unfolding diff_entry is_modified index_loadbalancer_by_id
  diff_old i [] desired acc = some acc
  diff_old i (old ∷ olds) desired acc =
      elim (diff_lb i old (index_loadbalancer_by_id (lb_id old) 0 desired) acc) [
        | none ↦ none
        | some acc' ↦ diff_old (i + 1) olds desired acc'
      ]

  -- `LoadBalancersDiff`
  unfoldable pub load_balancers_diff :
      List LbCluster → List LbCluster → Option LoadBalancersDiffResult
  unfolding added_from diff_old
  load_balancers_diff old desired = do
    changes ← diff_old 0 old desired ([], [])
    some (record {
      added = added_from 0 desired old [];
      deleted = changes.0;
      modified = changes.1;
      api_endpoint = determine_lb_api_endpoint_change old desired;
    })
