-- ===== src/Manager/Reconcile/Busy.antt =====
-- reconciliate: a cluster that is scheduled again has a task, in the `default` of the `switch`.
pub mod Visits
use claudie.Prelude.{
  ◌≡◌, refl, Bool, true, false, not, ◌&&◌, ◌||◌, List, [], ◌∷◌, Option, none, some, String,
  if◌then◌else◌, arith, ap, sym, subst, ◌∙◌, ◌⊎◌, inl, inr, Bool-cases, Option-cases, ltb, i32_lt,
}
use claudie.Pools.{is_empty}
use claudie.Spec.{Clusters}
use claudie.Spec.Clear.{mutable_clusters, replace_clusters}
use claudie.Store.Convert.{PbTaskEvent}
use claudie.Manager.Credentials.{update_credentials}
use claudie.Store.States.{PbStatus, PbWorkflow, PbClusterState, pb_error, pb_wait_for_pickup}
use claudie.Manager.Reconcile.{
  ScheduleResult, reschedule, no_reschedule, noop, not_ready, DiffResult, Result, err, ok,
  UnknownNodeStatus, Planner, should_reschedule_in_flight, is_last, handle_update,
  handle_cluster_unknown_nodes, diff,
}
use claudie.Manager.Reconcile.Union.{clusters_union}
use claudie.Manager.Reconcile.Parts.{
  extract_error, is_nil, Visit, choose_endpoint, reset, fail, with_in_flight, update_event,
  directions, next_ticks, reset_by,
}
use claudie.Manager.Reconcile.Cluster.{
  preferred, prefer, pending_unhealthy, renew, tick, settle, follow, decide, examine, plan,
  update_cluster, visit_update, visit_create, visit_destroy, paired, visit, cleared, finish,
  reconcile_cluster,
}

-- A cluster that is scheduled again has a task, and the visit does not end for good.
abbrev pub Busy : PbClusterState × ScheduleResult → Type 0
Busy (cs, reschedule) = is_empty cs.in_flight ≡ false
Busy (cs, no_reschedule) = false ≡ true
Busy (cs, noop) = Unit
Busy (cs, not_ready) = Unit

module _ (p : Planner) where
  prefer-Busy :
      (r : Result (Option PbTaskEvent)) (last : List PbTaskEvent) (cs : PbClusterState)
      (otherwise : PbClusterState × ScheduleResult)
      → Busy otherwise
      → Busy (prefer p r last cs otherwise)
  prefer-Busy (err text) last cs otherwise b = tt
  prefer-Busy (ok o) last cs otherwise b = elim (Option-cases (preferred p last o)) [
    | inl n ↦
        let got : prefer p (ok o) last cs otherwise ≡ otherwise = ground arith in
        subst Busy (sym got) b
    | inr (next, n) ↦
        let got : prefer p (ok o) last cs otherwise
            ≡ (with_in_flight (next ∷ last) cs, reschedule) =
          ground arith in
        subst Busy (sym got) refl
  ]

  tick-Busy : (cur : Clusters) (cs : PbClusterState) → Busy (tick p cur cs)
  tick-Busy cur cs =
      let t = next_ticks cs.state.ticks_until_refresh in
      let cs' : PbClusterState = record cs {
        state = record (cs.state) { ticks_until_refresh = t };
      } in
      elim (Bool-cases (i32_lt 0 t)) [
        | inl on ↦
            let got : tick p cur cs ≡ (cs', not_ready) = ground arith in subst Busy (sym got) tt
        | inr over ↦
            let got : tick p cur cs
                ≡ (with_in_flight (p.schedule_refresh_infrastructure cur ∷ []) cs', reschedule) =
              ground arith in
            subst Busy (sym got) refl
      ]

  settle-Busy :
      (u : Result (Option PbTaskEvent)) (ns : UnknownNodeStatus) (cur : Clusters)
      (cs : PbClusterState) (es : List PbTaskEvent)
      → Busy (settle p u ns cur cs es)
  settle-Busy u ns cur cs (e ∷ rest) = tt
  settle-Busy u ns cur cs [] =
      let ticks = tick-Busy cur cs in
      elim (Bool-cases (ltb 0 (pending_unhealthy p ns))) [
        | inl some_left ↦
            let got : settle p u ns cur cs [] ≡ prefer p u [] cs (tick p cur cs) = ground arith in
            subst Busy (sym got) (prefer-Busy u [] cs (tick p cur cs) ticks)
        | inr none_left ↦
            let got : settle p u ns cur cs [] ≡ tick p cur cs = ground arith in
            subst Busy (sym got) ticks
      ]

  follow-Busy :
      (o : Option PbTaskEvent) (u : Result (Option PbTaskEvent)) (ns : UnknownNodeStatus)
      (cur : Clusters) (cs : PbClusterState)
      → Busy (follow p o u ns cur cs)
  follow-Busy none u ns cur cs = settle-Busy u ns cur cs cs.in_flight
  follow-Busy (some t) u ns cur cs = prefer-Busy u cs.in_flight _ _ refl

  renew-Busy :
      (es : List PbTaskEvent)
      → should_reschedule_in_flight es ≡ true
      → is_empty (renew p es) ≡ false
  unfolding should_reschedule_in_flight
  renew-Busy [] h = absurd (cc h)
  renew-Busy (e ∷ rest) h = refl

  decide-Busy :
      (u : Result (Option PbTaskEvent)) (ns : UnknownNodeStatus) (hc : p.Health) (d : DiffResult)
      (cur to : Clusters) (cs : PbClusterState)
      → Busy (decide p u ns hc d cur to cs)
  decide-Busy u ns hc d cur to cs = elim (Bool-cases (should_reschedule_in_flight cs.in_flight)) [
    | inl stays ↦
        let again : PbClusterState × ScheduleResult =
          (with_in_flight (renew p cs.in_flight) cs, reschedule) in
        let got : decide p u ns hc d cur to cs ≡ prefer p u cs.in_flight cs again = ground arith in
        subst Busy (sym got) (prefer-Busy u cs.in_flight cs again (renew-Busy cs.in_flight stays))
    | inr goes ↦
        let o = handle_update p hc d cur to in
        let got : decide p u ns hc d cur to cs ≡ follow p o u ns cur cs = ground arith in
        subst Busy (sym got) (follow-Busy o u ns cur cs)
  ]

  examine-Busy :
      (r : Result UnknownNodeStatus) (hc : p.Health) (d : DiffResult) (cur to desired : Clusters)
      (cs : PbClusterState)
      → Busy (examine p r hc d cur to desired cs)
  examine-Busy (err text) hc d cur to desired cs = tt
  examine-Busy (ok ns) hc d cur to desired cs =
      decide-Busy (handle_cluster_unknown_nodes p cur desired d ns hc) ns hc d cur to cs

  plan-Busy :
      (desired : Clusters) (cs : PbClusterState) (x : PbClusterState × ScheduleResult)
      → plan p desired cs ≡ some x
      → Busy x
  unfolding plan
  plan-Busy desired cs x h = elim (Option-cases (directions cs.in_flight cs.current desired)) [
    | inl n ↦ let got : (fail extract_error cs, noop) ≡ x = ground arith in subst Busy got tt
    | inr ((cur, to), n) ↦ elim (Option-cases (diff p cur to)) [
      | inl m ↦ absurd (ground arith)
      | inr (d, m) ↦
          let r = p.check_nodes_status cur (p.health_check cur) in
          let got : examine p r (p.health_check cur) d cur to desired cs ≡ x = ground arith in
          subst Busy got (examine-Busy r (p.health_check cur) d cur to desired cs)
    ]
  ]

  update_cluster-Busy :
      (desired : Clusters) (cs : PbClusterState) (x : PbClusterState × ScheduleResult)
      → update_cluster p desired cs ≡ some x
      → Busy x
  unfolding update_cluster
  update_cluster-Busy desired cs x h = elim (Option-cases (update_event desired cs.in_flight)) [
    | inl n ↦ let got : (fail extract_error cs, noop) ≡ x = ground arith in subst Busy got tt
    | inr ((es, in_task), n) ↦
        let u = update_credentials cs.current desired in
        let cs' : PbClusterState = record cs { current = u.0; in_flight = es } in
        elim (Bool-cases (u.1 || in_task)) [
          | inl changed ↦ let got : (cs', not_ready) ≡ x = ground arith in subst Busy got tt
          | inr same ↦ plan-Busy desired cs' x (ground arith)
        ]
  ]

  pub visit_update-Busy :
      (desired : Clusters) (cs : PbClusterState) (x : PbClusterState × ScheduleResult)
      → visit_update p desired cs ≡ some x
      → Busy x
  unfolding visit_update
  visit_update-Busy desired cs x h = elim (Option-cases (reset cs)) [
    | inl n ↦ absurd (ground arith)
    | inr ((cs', any), n) ↦ elim (Bool-cases any) [
      | inl changed ↦ let got : (cs', not_ready) ≡ x = ground arith in subst Busy got tt
      | inr same ↦ update_cluster-Busy desired cs' x (ground arith)
    ]
  ]
