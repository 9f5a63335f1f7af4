-- ===== src/Manager/Counters.antt =====
-- services/manager/internal/service/process_task.go: the counters of failed scale-ups. A count is
-- an int64, as its bit pattern.
use claudie.Prelude.{
  ℕ, ◌+◌, ◌%◌, ◌^◌, Bool, true, false, ◌&&◌, not, List, Option, none, some, String, Dict, lookup,
  insert, erase, if◌then◌else◌,
}
use claudie.Spec.{K8sCluster, find_by_name}
use claudie.Spec.Task.{
  Task, Delta, AddKind, DeletedKind, tf_add_k8s_nodes, added_k8s_nodes, deleted_k8s_nodes,
  tf_move_node_pool_from_autoscaled, moved_node_pool_from_autoscaled,
}
use claudie.Pools.{is_empty}
use claudie.Pools.Edit.{is_autoscaled}

-- `counters[name] += 1`
abbrev pub bump : String → Dict ℕ → Dict ℕ
bump name m = insert name (elim (lookup name m) [ none ↦ 1 | some n ↦ (n + 1) % 2 ^ 64 ]) m

-- The test of a failed scale-up: the nodepool is autoscaled and nodes were to be added.
unfoldable pub scales_up {ℓ} : {A : Type ℓ} → K8sCluster → String → List A → Bool
unfolding find_by_name is_autoscaled
scales_up k nodepool nodes =
    (elim (find_by_name nodepool k.cluster_info.node_pools) [
      | none ↦ false
      | some np ↦ is_autoscaled np
    ])
    && not (is_empty nodes)

-- By the request: the nodepool that was to grow and the nodes it was to get.
unfoldable pub count_error : K8sCluster → Delta → Dict ℕ → Dict ℕ
unfolding scales_up
count_error k (tf_add_k8s_nodes (AddKind.existing nodepool nodes)) m =
    if scales_up k nodepool nodes then bump nodepool m else m
count_error k (added_k8s_nodes added) m =
    if scales_up k added.nodepool added.nodes then bump added.nodepool m else m
count_error k _ m = m

-- The two cases read `update.State.K8S`.
abbrev pub reads_k8s : Delta → Bool
reads_k8s (tf_add_k8s_nodes (AddKind.existing _ _)) = true
reads_k8s (added_k8s_nodes _) = true
reads_k8s _ = false

-- `PopulateTaskErrorCounters`; `none` is the dereference of a nil kubernetes cluster.
unfoldable pub populate_task_error_counters : Task → Dict ℕ → Option (Dict ℕ)
unfolding count_error
populate_task_error_counters (Task.update s d) m = elim s.k8s [
  | none ↦ if reads_k8s d then none else some m
  | some k ↦ some (count_error k d m)
]
populate_task_error_counters _ m = some m

-- `PopulateTaskSuccessCounters`
unfoldable pub populate_task_success_counters : Task → Dict ℕ → Dict ℕ
populate_task_success_counters (Task.update s (added_k8s_nodes added)) m = erase added.nodepool m
populate_task_success_counters (Task.update s (deleted_k8s_nodes _ (DeletedKind.whole np))) m =
    erase np.name m
populate_task_success_counters (Task.update s (tf_move_node_pool_from_autoscaled np)) m = erase np m
populate_task_success_counters (Task.update s (moved_node_pool_from_autoscaled np _)) m = erase np m
populate_task_success_counters _ m = m
