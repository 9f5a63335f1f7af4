-- ===== src/Examples/Tasks.antt =====
-- Consuming results: witnesses.
use claudie.Prelude.{
  ◌≡◌, refl, ◌++◌, ◌↔◌, true, false, List, [], ◌∷◌, none, some, String, map, All, contains,
  delete_func, if◌then◌else◌,
}
use claudie.Spec.{K8sCluster, LbCluster, id, lb_id, find_by_id}
use claudie.Spec.Task.{
  Task, TaskState, Delta, UpdateState, ClearState, update_result, tf_move_node_pool_from_autoscaled,
  moved_node_pool_from_autoscaled,
}
use claudie.Spec.Clear.{
  ok, refused, cluster_mismatch, load_balancers_exist, state_of, with_state, is_cleared,
  consume_clear_result,
}
use claudie.Spec.Merge.{or_else, merge, take_by_id}
use claudie.Spec.Request.{consume_delete, consume_replace}
use claudie.Spec.Update.{incoming, consume_update_result, commit, delta_of}
use claudie.Spec.Merge.Fresh.{IdsDistinct}
use claudie.Spec.Update.Identity.{consume_update_result-ids}
use claudie.Spec.Update.Overlay.{
  find_by_id-consume_update_result, consume_update_result_refused, find_by_id-commit,
}
use claudie.Spec.Settled.{is_request, consume_update_result_settles}
use claudie.Spec.Cleared.{find_by_id-consume_clear_result, consume_clear_result_k8s, empty_state}
use claudie.Examples.Data.{state, report, received, k8s, new_k8s, new_state, foreign, lb, dyn}

run : consume_update_result report (Task.create state) ≡ ok (Task.create new_state)
unfolding consume_update_result merge take_by_id delete_func
run = refl

find_by_id-consume_update_result_example :
    (s' : TaskState) × (state_of (Task.create new_state) ≡ some s')
    × ((target : String)
        → find_by_id target s'.load_balancers
          ≡ or_else
              (find_by_id target (incoming "prod" received))
              (find_by_id target state.load_balancers))
find_by_id-consume_update_result_example =
    find_by_id-consume_update_result report (Task.create state) (Task.create new_state) state k8s
      received refl refl refl run

distinct : IdsDistinct (incoming "prod" received)
unfolding delete_func contains
distinct = (refl, tt)

consume_update_result-ids_example :
    (k' : K8sCluster) × (s' : TaskState) × (state_of (Task.create new_state) ≡ some s')
    × (s'.k8s ≡ some k')
    × (id k'.cluster_info ≡ id k8s.cluster_info)
    × (map lb_id s'.load_balancers
        ≡ map lb_id state.load_balancers
          ++ map lb_id (
              delete_func
                (λ u. contains (lb_id u) (map lb_id state.load_balancers))
                (incoming "prod" received)))
consume_update_result-ids_example =
    consume_update_result-ids report (Task.create state) (Task.create new_state) state k8s received
      refl refl refl distinct run

abbrev request : Delta
request = tf_move_node_pool_from_autoscaled "workers"

abbrev settled : Delta
settled = moved_node_pool_from_autoscaled "workers" dyn.autoscaler_config

run_request :
    consume_update_result report (Task.update state request) ≡ ok (Task.update new_state settled)
unfolding consume_update_result consume_delete merge consume_replace take_by_id delete_func
run_request = refl

consume_update_result_settles_example :
    (d' : Delta) × (delta_of (Task.update new_state settled) ≡ some d')
    × (is_request d' ≡ false)
    × (is_request request ≡ false → d' ≡ request)
consume_update_result_settles_example =
    consume_update_result_settles report state request (Task.update new_state settled) run_request

run_foreign :
    consume_update_result foreign (Task.create state) ≡ refused cluster_mismatch (Task.create state)
unfolding consume_update_result
run_foreign = refl

consume_update_result_refused_example : state_of (Task.create state) ≡ state_of (Task.create state)
consume_update_result_refused_example =
    consume_update_result_refused foreign (Task.create state) (Task.create state) run_foreign

abbrev earlier : UpdateState
earlier = record { k8s = none; load_balancers = some (lb "lb-1" ∷ lb "lb-2" ∷ []) }

find_by_id-commit_example :
    (merged : List LbCluster) × (commit report (update_result earlier)
      ≡ some (update_result (record { k8s = some new_k8s; load_balancers = some merged })))
    × ((target : String)
        → find_by_id target merged
          ≡ or_else (find_by_id target received) (find_by_id target (lb "lb-1" ∷ lb "lb-2" ∷ [])))
find_by_id-commit_example =
    find_by_id-commit report earlier received (lb "lb-1" ∷ lb "lb-2" ∷ []) refl refl

abbrev clear_one : ClearState
clear_one = record { k8s = none; load_balancers_ids = "lb-1-abc" ∷ [] }

find_by_id-consume_clear_result_example :
    (s' : TaskState) × (consume_clear_result clear_one (Task.delete state)
      ≡ ok (with_state s' (Task.delete state)))
    × (s'.k8s ≡ state.k8s)
    × ((target : String)
        → find_by_id target s'.load_balancers ≡ (
            if contains target ("lb-1-abc" ∷ [])
            then none
            else find_by_id target state.load_balancers))
find_by_id-consume_clear_result_example =
    find_by_id-consume_clear_result clear_one (Task.delete state) state refl refl

abbrev clear_all : ClearState
clear_all = record { k8s = some true; load_balancers_ids = "lb-1-abc" ∷ [] }

consume_clear_result_k8s_example :
    ((consume_clear_result clear_all (Task.delete state) ≡ ok (Task.delete empty_state))
      ↔ All (λ lb. is_cleared clear_all lb ≡ true) state.load_balancers)
    × (¬ All (λ lb. is_cleared clear_all lb ≡ true) state.load_balancers
        → (s' : TaskState) × (consume_clear_result clear_all (Task.delete state)
            ≡ refused load_balancers_exist (with_state s' (Task.delete state)))
          × (s'.k8s ≡ state.k8s))
consume_clear_result_k8s_example =
    consume_clear_result_k8s clear_all (Task.delete state) state refl refl
