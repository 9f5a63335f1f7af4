-- ===== src/Manager/Reconcile/Cluster.antt =====
-- services/manager/internal/service/reconciliation.go: reconciliate, for one cluster. The secrets of
-- the management cluster and the log are left out. `none` is a panic.
use claudie.Prelude.{
  ℕ, ◌+◌, Bool, true, false, ◌||◌, List, [], ◌∷◌, Option, none, some, length, ltb, str_append,
  i32_lt, if◌then◌else◌,
}
use claudie.Pools.{is_empty}
use claudie.Spec.{Clusters}
use claudie.Spec.Clear.{mutable_clusters}
use claudie.Store.Convert.{PbTaskEvent}
use claudie.Manager.Credentials.{update_credentials}
use claudie.Store.States.{PbClusterState, pb_wait_for_pickup}
use claudie.Manager.Reconcile.{
  ScheduleResult, reschedule, no_reschedule, noop, not_ready, DiffResult, Result, err, ok,
  UnknownNodeStatus, Planner, should_reschedule_in_flight, is_last, handle_update,
  handle_cluster_unknown_nodes, diff,
}
use claudie.Manager.Reconcile.Union.{clusters_union}
use claudie.Manager.Reconcile.Parts.{
  is_nil, Visit, choose_endpoint, reset_counters, reset, fail, with_in_flight, extract_error,
  update_event, directions, next_ticks,
}

module _ (p : Planner) where
  -- "if next != nil && !areScheduledTasksEqual(lastTask, next)"
  abbrev pub preferred : List PbTaskEvent → Option PbTaskEvent → Option PbTaskEvent
  preferred last none = none
  preferred last (some next) = if is_last p last next then none else some next

  -- A plan for unknown nodes goes in front of `last`, an error is reported on `at`, and else `else_`.
  abbrev pub prefer :
      Result (Option PbTaskEvent)
      → List PbTaskEvent
      → PbClusterState
      → PbClusterState × ScheduleResult
      → PbClusterState × ScheduleResult
  prefer (err text) last cs otherwise = (fail text cs, not_ready)
  prefer (ok o) last cs otherwise = elim (preferred last o) [
    | none ↦ otherwise
    | some next ↦ (with_in_flight (next ∷ last) cs, reschedule)
  ]

  abbrev pub renew : List PbTaskEvent → List PbTaskEvent
  renew [] = []
  renew (e ∷ rest) = record e { id = p.new_uuid } ∷ rest

  -- `len(NotJoined) + len(UnknownKubernetes) + len(UnknownLoadBalancers)`
  abbrev pub pending_unhealthy : UnknownNodeStatus → ℕ
  pending_unhealthy ns =
      length ns.not_joined_kubernetes_nodes
      + length ns.unknown_kubernetes_nodes
      + length ns.unknown_load_balancers_nodes

  -- The ticks until the infrastructure is refreshed.
  abbrev pub tick : Clusters → PbClusterState → PbClusterState × ScheduleResult
  tick cur cs =
      let t = next_ticks cs.state.ticks_until_refresh in
      let cs' = record cs { state = record (cs.state) { ticks_until_refresh = t } } in
      if i32_lt 0 t
      then (cs', not_ready)
      else (with_in_flight (p.schedule_refresh_infrastructure cur ∷ []) cs', reschedule)

  -- There is nothing to do for the difference.
  abbrev pub settle :
      Result (Option PbTaskEvent)
      → UnknownNodeStatus
      → Clusters
      → PbClusterState
      → List PbTaskEvent
      → PbClusterState × ScheduleResult
  settle unknown ns cur cs (e ∷ rest) = (with_in_flight [] cs, not_ready)
  settle unknown ns cur cs [] =
      if ltb 0 (pending_unhealthy ns) then prefer unknown [] cs (tick cur cs) else tick cur cs

  -- `handleUpdate`, where the task is in place before the nodes are looked at.
  abbrev pub follow :
      Option PbTaskEvent
      → Result (Option PbTaskEvent)
      → UnknownNodeStatus
      → Clusters
      → PbClusterState
      → PbClusterState × ScheduleResult
  follow (some t) unknown ns cur cs =
      prefer unknown cs.in_flight (with_in_flight (t ∷ []) cs)
        (with_in_flight (t ∷ []) cs, reschedule)
  follow none unknown ns cur cs = settle unknown ns cur cs cs.in_flight

  abbrev pub decide :
      Result (Option PbTaskEvent)
      → UnknownNodeStatus
      → p.Health
      → DiffResult
      → Clusters
      → Clusters
      → PbClusterState
      → PbClusterState × ScheduleResult
  decide unknown ns hc d cur to cs =
      if should_reschedule_in_flight cs.in_flight
      then prefer unknown cs.in_flight cs (with_in_flight (renew cs.in_flight) cs, reschedule)
      else follow (handle_update p hc d cur to) unknown ns cur cs

  abbrev pub examine :
      Result UnknownNodeStatus
      → p.Health
      → DiffResult
      → Clusters
      → Clusters
      → Clusters
      → PbClusterState
      → PbClusterState × ScheduleResult
  examine (err text) hc d cur to desired cs = (
    fail
        (str_append
          "Can't schedule task, failed to determine reachability of nodes of the clusters: " text)
        cs,
    not_ready,
  )
  examine (ok ns) hc d cur to desired cs =
      decide (handle_cluster_unknown_nodes p cur desired d ns hc) ns hc d cur to cs

  -- From "Could be nil or could be a Task that failed." on.
  unfoldable pub plan : Clusters → PbClusterState → Option (PbClusterState × ScheduleResult)
  unfolding should_reschedule_in_flight handle_update handle_cluster_unknown_nodes diff
  plan desired cs = elim (directions cs.in_flight cs.current desired) [
    | none ↦ some (fail extract_error cs, noop)
    | some (cur, to) ↦
        let hc = p.health_check cur in
        elim (diff p cur to) [
          | none ↦ none
          | some d ↦ some (examine (p.check_nodes_status cur hc) hc d cur to desired cs)
        ]
  ]

  -- The `default` of the `switch`, behind the counters.
  unfoldable pub update_cluster :
      Clusters → PbClusterState → Option (PbClusterState × ScheduleResult)
  unfolding plan
  update_cluster desired cs = elim (update_event desired cs.in_flight) [
    | none ↦ some (fail extract_error cs, noop)
    | some (es, in_task) ↦
        let (current, in_current) = update_credentials cs.current desired in
        let cs' = record cs { current = current; in_flight = es } in
        if in_current || in_task then some (cs', not_ready) else plan desired cs'
  ]

  unfoldable pub visit_update : Clusters → PbClusterState → Option (PbClusterState × ScheduleResult)
  unfolding update_cluster reset_counters
  visit_update desired cs = elim (reset cs) [
    | none ↦ none
    | some (cs', any) ↦ if any then some (cs', not_ready) else update_cluster desired cs'
  ]

  -- `ScheduleDeleteCluster` reads the nodepools of the kubernetes cluster, and panics on a nil one.
  abbrev pub schedule_delete : Clusters → PbClusterState → Option PbClusterState
  schedule_delete del cs = elim del.k8s [
    | none ↦ none
    | some _ ↦ some (with_in_flight (p.schedule_delete_cluster del ∷ []) cs)
  ]

  -- So does `CreatePipeline`, which `ScheduleCreateCluster` calls.
  abbrev pub schedule_create : Clusters → PbClusterState → Option PbClusterState
  schedule_create desired cs = elim desired.k8s [
    | none ↦ none
    | some _ ↦ some (with_in_flight (p.schedule_create_cluster desired ∷ []) cs)
  ]

  -- The result is Reschedule, whatever the two cases do.
  abbrev pub to_reschedule : Clusters → Option PbClusterState → Option Visit
  to_reschedule desired none = none
  to_reschedule desired (some cs) = some (cs, desired, reschedule)

  -- "case isCreate"
  abbrev pub visit_create : List PbTaskEvent → Clusters → PbClusterState → Option Visit
  visit_create [] desired cs = elim (choose_endpoint desired) [
    | none ↦ none
    | some d ↦ to_reschedule d (schedule_create d cs)
  ]
  visit_create (e ∷ _) desired cs = elim (mutable_clusters e.task) [
    | none ↦ some (cs, desired, reschedule)
    | some c ↦ to_reschedule desired (schedule_delete c cs)
  ]

  -- "case isDestroy"
  abbrev pub visit_destroy : List PbTaskEvent → Clusters → PbClusterState → Option Visit
  visit_destroy [] desired cs = to_reschedule desired (schedule_delete cs.current cs)
  visit_destroy (e ∷ _) desired cs = elim (mutable_clusters e.task) [
    | none ↦ some (cs, desired, reschedule)
    | some c ↦ elim (clusters_union p.to_lower p.equal cs.current c) [
      | none ↦ none
      | some del ↦ to_reschedule desired (schedule_delete del cs)
    ]
  ]

  abbrev pub paired : Clusters → Option (PbClusterState × ScheduleResult) → Option Visit
  paired desired none = none
  paired desired (some (cs, r)) = some (cs, desired, r)

  -- The `switch`, by `isCurrentNil` and `isDesiredNil`.
  abbrev pub visit : Bool → Bool → Clusters → PbClusterState → Option Visit
  visit true true desired cs =
      if is_empty cs.in_flight
      then some (cs, desired, no_reschedule)
      else visit_destroy cs.in_flight desired cs
  visit true false desired cs = visit_create cs.in_flight desired cs
  visit false true desired cs = visit_destroy cs.in_flight desired cs
  visit false false desired cs = paired desired (visit_update desired cs)

  -- The `switch clusterResult[cluster]` behind it.
  abbrev pub cleared : PbClusterState → PbClusterState
  cleared cs = record cs {
    state = record {
      status = pb_wait_for_pickup;
      description = "";
      previous = cs.state.previous;
      ticks_until_refresh = p.ticks_for_refresh;
    };
  }

  abbrev pub finish : Visit → Visit
  finish (cs, desired, reschedule) = (cleared cs, desired, reschedule)
  finish (cs, desired, no_reschedule) = (cleared cs, desired, no_reschedule)
  finish (cs, desired, r) = (cs, desired, r)

  -- One round of the loop; a desired state that is missing is one without clusters.
  unfoldable pub reconcile_cluster : Clusters → PbClusterState → Option Visit
  unfolding visit_update choose_endpoint clusters_union is_nil
  reconcile_cluster desired cs = elim (visit (is_nil cs.current) (is_nil desired) desired cs) [
    | none ↦ none
    | some v ↦ some (finish v)
  ]
