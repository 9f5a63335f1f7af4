-- ===== src/Manager/Reconcile/Final.antt =====
-- services/manager/internal/service/reconciliation.go: reconciliate for all clusters of a document, and
-- PopulateEntriesForNewClusters. The clusters are visited in the order of the list, which stands
-- for any order; `none` is a panic.
pub mod Applied
use claudie.Prelude.{
  ℕ, ◌+◌, ◌==◌, Bool, true, false, ◌&&◌, List, [], ◌∷◌, Option, none, some, String, Dict, lookup,
  insert, has, length, ltb, if◌then◌else◌,
}
use claudie.Spec.{Clusters}
use claudie.Store.States.{PbClusterState, PbWorkflow, pb_done}
use claudie.Manager.Reconcile.{ScheduleResult, reschedule, no_reschedule, noop, not_ready, Planner}
use claudie.Manager.Reconcile.Cluster.{reconcile_cluster}

abbrev pub no_clusters : Clusters
no_clusters = record { k8s = none; load_balancers = [] }

-- An entry "without any state at all".
abbrev pub new_entry : PbClusterState
new_entry = record {
  current = no_clusters;
  state = record { status = pb_done; description = ""; previous = []; ticks_until_refresh = 0 };
  in_flight = [];
  scale_up_failed = [];
}

-- `PopulateEntriesForNewClusters`
unfoldable pub populate_entries_for_new_clusters :
    Dict PbClusterState → Dict Clusters → Dict PbClusterState
unfolding insert lookup
populate_entries_for_new_clusters current [] = current
populate_entries_for_new_clusters current ((name, _) ∷ desired) =
    populate_entries_for_new_clusters
      (if has name current then current else insert name new_entry current) desired

-- `desiredStates[cluster]`, which is nil for a cluster that is not desired.
abbrev pub desired_of : String → Dict Clusters → Clusters
desired_of name desired = elim (lookup name desired) [ none ↦ no_clusters | some d ↦ d ]

abbrev pub is_result : ScheduleResult → ScheduleResult → Bool
is_result reschedule reschedule = true
is_result no_reschedule no_reschedule = true
is_result noop noop = true
is_result not_ready not_ready = true
is_result _ _ = false

unfoldable pub count_results : ScheduleResult → List ScheduleResult → ℕ
count_results r [] = 0
count_results r (x ∷ xs) = (if is_result r x then 1 else 0) + count_results r xs

-- The `switch` over the counts.
unfoldable pub final_result : List ScheduleResult → ScheduleResult
unfolding count_results
final_result rs =
    if ltb 0 (count_results reschedule rs)
    then reschedule
    else if ltb 0 (count_results not_ready rs)
    then not_ready
    else if count_results no_reschedule rs == length rs
    then no_reschedule
    else if count_results noop rs == length rs
    then noop
    else reschedule

module _ (p : Planner) where
  -- The clusters, the desired states and the results after the loop.
  abbrev pub Round : Type 0
  Round = Dict PbClusterState × Dict Clusters × List ScheduleResult

  -- The desired state is changed where it is that of a new cluster.
  abbrev pub put_desired : String → Clusters → Dict Clusters → Dict Clusters
  put_desired name d desired = if has name desired then insert name d desired else desired

  unfoldable pub reconcile_clusters : Dict PbClusterState → Dict Clusters → Option Round
  unfolding lookup insert reconcile_cluster
  reconcile_clusters [] desired = some ([], desired, [])
  reconcile_clusters ((name, cs) ∷ clusters) desired =
      elim (reconcile_cluster p (desired_of name desired) cs) [
        | none ↦ none
        | some (cs', d, r) ↦ elim (reconcile_clusters clusters (put_desired name d desired)) [
          | none ↦ none
          | some (clusters', desired', rs) ↦ some ((name, cs') ∷ clusters', desired', r ∷ rs)
        ]
      ]

  -- `reconciliate`
  unfoldable pub reconciliate :
      Dict PbClusterState → Dict Clusters → Option (Dict PbClusterState × ScheduleResult)
  unfolding populate_entries_for_new_clusters reconcile_clusters final_result
  reconciliate clusters desired =
      elim (reconcile_clusters (populate_entries_for_new_clusters clusters desired) desired) [
        | none ↦ none
        | some (clusters', _, rs) ↦ some (clusters', final_result rs)
      ]
