-- ===== src/Manager/Reconcile/Busy/Visits.antt =====
-- reconciliate: a cluster that is scheduled again has a task.
use claudie.Prelude.{
  ◌≡◌, refl, Bool, true, false, List, [], ◌∷◌, some, arith, subst, inl, inr, Bool-cases,
  Option-cases,
}
use claudie.Pools.{is_empty}
use claudie.Spec.{Clusters}
use claudie.Spec.Clear.{mutable_clusters}
use claudie.Store.Convert.{PbTaskEvent}
use claudie.Store.States.{PbClusterState, pb_wait_for_pickup}
use claudie.Manager.Reconcile.{ScheduleResult, reschedule, no_reschedule, noop, not_ready, Planner}
use claudie.Manager.Reconcile.Union.{clusters_union}
use claudie.Manager.Reconcile.Parts.{is_nil, choose_endpoint}
use claudie.Manager.Reconcile.Cluster.{
  visit_update, visit_create, visit_destroy, visit, finish, reconcile_cluster,
}
use claudie.Manager.Reconcile.Busy.{Busy, visit_update-Busy}

module _ (p : Planner) where
  visit_create-Busy :
      (es : List PbTaskEvent) (desired d' : Clusters) (cs cs' : PbClusterState)
      → cs.in_flight ≡ es
      → visit_create p es desired cs ≡ some (cs', d', reschedule)
      → is_empty cs'.in_flight ≡ false
  visit_create-Busy [] desired d' cs cs' now h = elim (Option-cases (choose_endpoint desired)) [
    | inl n ↦ absurd (ground arith)
    | inr (d, n) ↦ ground arith
  ]
  visit_create-Busy (e ∷ rest) desired d' cs cs' now h =
      elim (Option-cases (mutable_clusters e.task)) [
        | inl n ↦ ground arith
        | inr (c, n) ↦ ground arith
      ]

  visit_destroy-Busy :
      (es : List PbTaskEvent) (desired d' : Clusters) (cs cs' : PbClusterState)
      → cs.in_flight ≡ es
      → visit_destroy p es desired cs ≡ some (cs', d', reschedule)
      → is_empty cs'.in_flight ≡ false
  visit_destroy-Busy [] desired d' cs cs' now h = ground arith
  visit_destroy-Busy (e ∷ rest) desired d' cs cs' now h =
      elim (Option-cases (mutable_clusters e.task)) [
        | inl n ↦ ground arith
        | inr (c, n) ↦ elim (Option-cases (clusters_union p.to_lower p.equal cs.current c)) [
          | inl m ↦ absurd (ground arith)
          | inr (u, m) ↦ ground arith
        ]
      ]

  visit-Busy :
      (a b : Bool) (desired d' : Clusters) (cs cs' : PbClusterState)
      → visit p a b desired cs ≡ some (cs', d', reschedule)
      → is_empty cs'.in_flight ≡ false
  visit-Busy true true desired d' cs cs' h = elim (Bool-cases (is_empty cs.in_flight)) [
    | inl n ↦ absurd (ground arith)
    | inr n ↦ visit_destroy-Busy cs.in_flight desired d' cs cs' refl (ground arith)
  ]
  visit-Busy true false desired d' cs cs' h =
      visit_create-Busy cs.in_flight desired d' cs cs' refl h
  visit-Busy false true desired d' cs cs' h =
      visit_destroy-Busy cs.in_flight desired d' cs cs' refl h
  visit-Busy false false desired d' cs cs' h = elim (Option-cases (visit_update p desired cs)) [
    | inl n ↦ absurd (ground arith)
    | inr (x, n) ↦
        let first : x ≡ (cs', reschedule) = ground arith in
        subst Busy first (visit_update-Busy p desired cs x n)
  ]

  -- A cluster that is to be scheduled again has a task in flight, and its status is that of a task
  -- that waits to be picked up, with the description cleared.
  pub reconcile_cluster-Busy :
      (desired d' : Clusters) (cs cs' : PbClusterState)
      → reconcile_cluster p desired cs ≡ some (cs', d', reschedule)
      → (is_empty cs'.in_flight ≡ false)
        × (cs'.state.status ≡ pb_wait_for_pickup)
        × (cs'.state.description ≡ "")
  unfolding reconcile_cluster
  reconcile_cluster-Busy desired d' cs cs' h =
      elim (Option-cases (visit p (is_nil cs.current) (is_nil desired) desired cs)) [
        | inl n ↦ absurd (ground arith)
        | inr ((x, d, r), n) ↦ by_result x d r n (ground arith)
      ]
    where
      by_result :
          (x : PbClusterState) (d : Clusters) (r : ScheduleResult)
          → visit p (is_nil cs.current) (is_nil desired) desired cs ≡ some (x, d, r)
          → finish p (x, d, r) ≡ (cs', d', reschedule)
          → (is_empty cs'.in_flight ≡ false)
            × (cs'.state.status ≡ pb_wait_for_pickup)
            × (cs'.state.description ≡ "")
      by_result x d reschedule n f =
          let busy = visit-Busy (is_nil cs.current) (is_nil desired) desired d cs x n in
          (ground arith, ground arith, ground arith)
      by_result x d no_reschedule n f = absurd (cc f)
      by_result x d noop n f = absurd (cc f)
      by_result x d not_ready n f = absurd (cc f)

  visit_destroy-ends :
      (es : List PbTaskEvent) (desired d' : Clusters) (cs cs' : PbClusterState)
      → visit_destroy p es desired cs ≡ some (cs', d', no_reschedule)
      → false ≡ true
  visit_destroy-ends [] desired d' cs cs' h = ground arith
  visit_destroy-ends (e ∷ rest) desired d' cs cs' h =
      elim (Option-cases (mutable_clusters e.task)) [
        | inl n ↦ ground arith
        | inr (c, n) ↦ elim (Option-cases (clusters_union p.to_lower p.equal cs.current c)) [
          | inl m ↦ ground arith
          | inr (u, m) ↦ ground arith
        ]
      ]

  visit_create-ends :
      (es : List PbTaskEvent) (desired d' : Clusters) (cs cs' : PbClusterState)
      → visit_create p es desired cs ≡ some (cs', d', no_reschedule)
      → false ≡ true
  visit_create-ends [] desired d' cs cs' h = elim (Option-cases (choose_endpoint desired)) [
    | inl n ↦ ground arith
    | inr (d, n) ↦ ground arith
  ]
  visit_create-ends (e ∷ rest) desired d' cs cs' h = elim (Option-cases (mutable_clusters e.task)) [
    | inl n ↦ ground arith
    | inr (c, n) ↦ ground arith
  ]

  -- What a visit that ends for good finds, and leaves.
  abbrev pub Gone : Bool → Bool → PbClusterState → PbClusterState → Type 0
  Gone a b cs cs' =
      (a ≡ true)
      × (b ≡ true)
      × (is_empty cs.in_flight ≡ true)
      × (cs'.current ≡ cs.current)
      × (cs'.in_flight ≡ cs.in_flight)

  visit-ends :
      (a b : Bool) (desired d' : Clusters) (cs cs' : PbClusterState)
      → visit p a b desired cs ≡ some (cs', d', no_reschedule)
      → Gone a b cs cs'
  visit-ends true true desired d' cs cs' h = elim (Bool-cases (is_empty cs.in_flight)) [
    | inl n ↦ (refl, refl, n, ground arith, ground arith)
    | inr n ↦
        absurd (ground (arith, visit_destroy-ends cs.in_flight desired d' cs cs' (ground arith)))
  ]
  visit-ends true false desired d' cs cs' h =
      absurd (ground (arith, visit_create-ends cs.in_flight desired d' cs cs' h))
  visit-ends false true desired d' cs cs' h =
      absurd (ground (arith, visit_destroy-ends cs.in_flight desired d' cs cs' h))
  visit-ends false false desired d' cs cs' h = elim (Option-cases (visit_update p desired cs)) [
    | inl n ↦ absurd (ground arith)
    | inr (x, n) ↦
        let first : x ≡ (cs', no_reschedule) = ground arith in
        let never : false ≡ true = subst Busy first (visit_update-Busy p desired cs x n) in
        absurd (ground (arith, never))
  ]

  -- A visit that ends for good is that of a cluster without a current state, a desired one and a task.
  pub reconcile_cluster-ends :
      (desired d' : Clusters) (cs cs' : PbClusterState)
      → reconcile_cluster p desired cs ≡ some (cs', d', no_reschedule)
      → Gone (is_nil cs.current) (is_nil desired) cs cs'
  unfolding reconcile_cluster
  reconcile_cluster-ends desired d' cs cs' h =
      elim (Option-cases (visit p (is_nil cs.current) (is_nil desired) desired cs)) [
        | inl n ↦ absurd (ground arith)
        | inr ((x, d, r), n) ↦ by_result x d r n (ground arith)
      ]
    where
      by_result :
          (x : PbClusterState) (d : Clusters) (r : ScheduleResult)
          → visit p (is_nil cs.current) (is_nil desired) desired cs ≡ some (x, d, r)
          → finish p (x, d, r) ≡ (cs', d', no_reschedule)
          → Gone (is_nil cs.current) (is_nil desired) cs cs'
      by_result x d no_reschedule n f =
          let (a, b, c, e, g) = visit-ends (is_nil cs.current) (is_nil desired) desired d cs x n in
          (a, b, c, ground (arith, e), ground (arith, g))
      by_result x d reschedule n f = absurd (cc f)
      by_result x d noop n f = absurd (cc f)
      by_result x d not_ready n f = absurd (cc f)
