-- ===== src/Manager/Reconcile/Stays.antt =====
-- reconciliate: a task that cannot be rolled back stays.
use claudie.Prelude.{
  ◌≡◌, refl, true, false, ◌||◌, List, ◌∷◌, Option, some, arith, sym, subst, ◌∙◌, ◌⊎◌, inl, inr,
  Bool-cases, Option-cases,
}
use claudie.Spec.{Clusters}
use claudie.Spec.Clear.{mutable_clusters, replace_clusters}
use claudie.Store.Convert.{PbTaskEvent}
use claudie.Manager.Credentials.{update_credentials}
use claudie.Store.States.{PbClusterState}
use claudie.Manager.Reconcile.{
  ScheduleResult, reschedule, no_reschedule, noop, not_ready, DiffResult, Result, err, ok,
  UnknownNodeStatus, Planner, should_reschedule_in_flight, handle_cluster_unknown_nodes, diff,
}
use claudie.Manager.Reconcile.Parts.{is_nil, Visit, fail, with_in_flight, directions}
use claudie.Manager.Reconcile.Cluster.{
  preferred, prefer, renew, examine, plan, update_cluster, visit_update, visit, finish,
  reconcile_cluster,
}
use claudie.Spec.Task.{Task, Delta}
use claudie.Manager.Reconcile.{cannot_roll_back, reschedules_task}
use claudie.Manager.Reconcile.Parts.{extract_error}

-- The event is the same but for its id and for the clusters in its task.
pub record IsSame (e e' : PbTaskEvent) : Type 0 where
  pub clusters : Clusters
  pub task : e'.task ≡ replace_clusters clusters e.task
  pub event : e'.event ≡ e.event
  pub description : e'.description ≡ e.description
  pub pipeline : e'.pipeline ≡ e.pipeline
  pub current_stage : e'.current_stage ≡ e.current_stage

-- The chain is `e` and the events behind it, perhaps with an event of a higher priority before it.
pub record Stays (e : PbTaskEvent) (rest es : List PbTaskEvent) : Type 0 where
  pub event : PbTaskEvent
  pub same : IsSame e event
  pub place : (es ≡ event ∷ rest) ⊎ ((next : PbTaskEvent) × (es ≡ next ∷ event ∷ rest))

module _ (p : Planner) (e e' : PbTaskEvent) (rest : List PbTaskEvent) (same : IsSame e e') where
  prefer-Stays :
      (r : Result (Option PbTaskEvent)) (cs : PbClusterState)
      (otherwise : PbClusterState × ScheduleResult)
      → cs.in_flight ≡ e' ∷ rest
      → Stays e rest otherwise.0.in_flight
      → Stays e rest (prefer p r (e' ∷ rest) cs otherwise).0.in_flight
  prefer-Stays (err text) cs otherwise now s = record { event = e'; same = same; place = inl now }
  prefer-Stays (ok o) cs otherwise now s = elim (Option-cases (preferred p (e' ∷ rest) o)) [
    | inl n ↦
        let got : prefer p (ok o) (e' ∷ rest) cs otherwise ≡ otherwise = ground arith in
        subst (λ x. Stays e rest x.0.in_flight) (sym got) s
    | inr (next, n) ↦
        let got : prefer p (ok o) (e' ∷ rest) cs otherwise
            ≡ (with_in_flight (next ∷ e' ∷ rest) cs, reschedule) =
          ground arith in
        subst (λ x. Stays e rest x.0.in_flight) (sym got)
          (record { event = e'; same = same; place = inr (next, refl) })
  ]

  renewed : IsSame e (record e' { id = p.new_uuid })
  renewed = record {
    clusters = same.clusters;
    task = same.task;
    event = same.event;
    description = same.description;
    pipeline = same.pipeline;
    current_stage = same.current_stage;
  }

  examine-Stays :
      (r : Result UnknownNodeStatus) (hc : p.Health) (d : DiffResult) (cur to desired : Clusters)
      (cs : PbClusterState)
      → should_reschedule_in_flight (e' ∷ rest) ≡ true
      → Stays e rest (examine p r hc d cur to desired (with_in_flight (e' ∷ rest) cs)).0.in_flight
  examine-Stays (err text) hc d cur to desired cs h = record {
    event = e';
    same = same;
    place = inl refl;
  }
  examine-Stays (ok ns) hc d cur to desired cs h =
      let u = handle_cluster_unknown_nodes p cur desired d ns hc in
      rw h (
        prefer-Stays u (with_in_flight (e' ∷ rest) cs)
          (with_in_flight (renew p (e' ∷ rest)) cs, reschedule) refl
          (record { event = record e' { id = p.new_uuid }; same = renewed; place = inl refl }))

  plan-Stays :
      (desired : Clusters) (cs : PbClusterState) (x : PbClusterState × ScheduleResult)
      → should_reschedule_in_flight (e' ∷ rest) ≡ true
      → plan p desired (with_in_flight (e' ∷ rest) cs) ≡ some x
      → Stays e rest x.0.in_flight
  unfolding plan
  plan-Stays desired cs x h g = elim (Option-cases (directions (e' ∷ rest) cs.current desired)) [
    | inl n ↦
        let got : (fail extract_error (with_in_flight (e' ∷ rest) cs), noop) ≡ x = ground arith in
        subst (λ y. Stays e rest y.0.in_flight) got
          (record { event = e'; same = same; place = inl refl })
    | inr ((cur, to), n) ↦ elim (Option-cases (diff p cur to)) [
      | inl m ↦ absurd (ground arith)
      | inr (d, m) ↦
          let hc = p.health_check cur in
          let r = p.check_nodes_status cur hc in
          let got : examine p r hc d cur to desired (with_in_flight (e' ∷ rest) cs) ≡ x =
            ground arith in
          subst (λ y. Stays e rest y.0.in_flight) got (examine-Stays r hc d cur to desired cs h)
    ]
  ]

-- The kind of the task and its change stay.
reschedules_replaced :
    (e : PbTaskEvent) (c : Clusters) (t : Task)
    → reschedules_task (record e { task = replace_clusters c t }) (replace_clusters c t)
      ≡ reschedules_task e t
unfolding replace_clusters
reschedules_replaced e c Task.unset = refl
reschedules_replaced e c (Task.create s) = refl
reschedules_replaced e c (Task.update s d) = delta d
  where
    delta :
        (d : Delta)
        → cannot_roll_back (record e { task = replace_clusters c (Task.update s d) }) d
          ≡ cannot_roll_back e d
    delta d = refl
reschedules_replaced e c (Task.delete s) = refl

reschedules-mutable :
    (e : PbTaskEvent) (t : Task)
    → reschedules_task e t ≡ true
    → (c : Clusters) × (mutable_clusters t ≡ some c)
unfolding mutable_clusters
reschedules-mutable e Task.unset h = absurd (cc h)
reschedules-mutable e (Task.create s) h = absurd (cc h)
reschedules-mutable e (Task.update s d) h = (_, refl)
reschedules-mutable e (Task.delete s) h = absurd (cc h)

module _ (p : Planner) (e : PbTaskEvent) (rest : List PbTaskEvent) where
  update_cluster-Stays :
      (desired : Clusters) (cs : PbClusterState) (x : PbClusterState × ScheduleResult)
      → should_reschedule_in_flight (e ∷ rest) ≡ true
      → update_cluster p desired (with_in_flight (e ∷ rest) cs) ≡ some x
      → Stays e rest x.0.in_flight
  unfolding update_cluster should_reschedule_in_flight
  update_cluster-Stays desired cs x h g =
      let (c, has) = reschedules-mutable e e.task h in
      let u = update_credentials c desired in
      let e' : PbTaskEvent = record e { task = replace_clusters u.0 e.task } in
      let same : IsSame e e' = record {
        clusters = u.0;
        task = refl;
        event = refl;
        description = refl;
        pipeline = refl;
        current_stage = refl;
      } in
      let now = update_credentials cs.current desired in
      let cs' : PbClusterState = record cs { current = now.0 } in
      elim (Bool-cases (now.1 || u.1)) [
        | inl changed ↦
            let got : (with_in_flight (e' ∷ rest) cs', not_ready) ≡ x = ground arith in
            subst (λ y. Stays e rest y.0.in_flight) got
              (record { event = e'; same = same; place = inl refl })
        | inr as_before ↦
            plan-Stays p e e' rest same desired cs' x (reschedules_replaced e u.0 e.task ∙ h)
              (ground arith)
      ]

  visit-Stays :
      (desired : Clusters) (cs : PbClusterState) (v : Visit)
      → should_reschedule_in_flight (e ∷ rest) ≡ true
      → visit p false false desired (with_in_flight (e ∷ rest) cs) ≡ some v
      → Stays e rest v.0.in_flight
  unfolding visit_update
  visit-Stays desired cs v h g =
      elim (Option-cases (update_cluster p desired (with_in_flight (e ∷ rest) cs))) [
        | inl n ↦ absurd (ground arith)
        | inr (x, n) ↦
            let got : (x.0, desired, x.1) ≡ v = ground arith in
            subst (λ y. Stays e rest y.0.in_flight) got (update_cluster-Stays desired cs x h n)
      ]

  finish-in_flight : (v : Visit) → (finish p v).0.in_flight ≡ v.0.in_flight
  finish-in_flight (cs, d, reschedule) = refl
  finish-in_flight (cs, d, no_reschedule) = refl
  finish-in_flight (cs, d, noop) = refl
  finish-in_flight (cs, d, not_ready) = refl

  -- Where the cluster exists and is desired, a task that cannot be rolled back is never dropped by
  -- a reconciliation that does not panic: whatever the network and the plans are, the chain is still
  -- the same event, with the clusters of its task updated and perhaps under a new id, and the events
  -- behind it, and at most one event of a higher priority is put before it.
  pub reconcile_cluster-Stays :
      (desired : Clusters) (cs : PbClusterState) (v : Visit)
      → is_nil cs.current ≡ false
      → is_nil desired ≡ false
      → should_reschedule_in_flight (e ∷ rest) ≡ true
      → reconcile_cluster p desired (with_in_flight (e ∷ rest) cs) ≡ some v
      → Stays e rest v.0.in_flight
  unfolding reconcile_cluster
  reconcile_cluster-Stays desired cs v a b h g =
      elim (Option-cases (visit p false false desired (with_in_flight (e ∷ rest) cs))) [
        | inl n ↦ absurd (ground arith)
        | inr (x, n) ↦
            let got : finish p x ≡ v = ground arith in
            subst (λ y. Stays e rest y.0.in_flight) got
              (subst (Stays e rest) (sym (finish-in_flight x)) (visit-Stays desired cs x h n))
      ]
