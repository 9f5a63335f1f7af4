-- ===== src/Manager/Pending/Applies.antt =====
-- WatchForPendingDocuments: when the checksum of a manifest counts as applied.
use claudie.Prelude.{
  ◌≡◌, ◌⊎◌, inl, inr, Option, some, Dict, All, arith, subst, Option-cases, Bool-cases,
}
use claudie.Manifest.{scheduled, valid_state_transition}
use claudie.Spec.{Clusters}
use claudie.Store.Convert.{PbTime}
use claudie.Store.States.{PbConfig, PbClusterState}
use claudie.Manager.Reconcile.{ScheduleResult, reschedule, no_reschedule, noop, not_ready, Planner}
use claudie.Manager.Reconcile.Final.{reconciliate}
use claudie.Manager.Reconcile.Final.Applied.{Gone, reconciliate-Gone}
use claudie.Manager.Pending.{write, after, pending}

-- The checksum that was applied last is kept, or the manifest is scheduled with its own checksum
-- applied and nothing is left of its clusters.
abbrev pub Applied : PbConfig → PbConfig → Type 0
Applied doc doc' =
    (doc'.manifest.last_applied_checksum ≡ doc.manifest.last_applied_checksum)
    ⊎ ((doc'.manifest.last_applied_checksum ≡ doc.manifest.checksum)
        × (doc'.manifest.state ≡ scheduled)
        × All (λ e. Gone e.1) doc'.clusters)

module _ (p : Planner) (create_desired_state : PbConfig → Option (Dict Clusters))
    (now : PbTime) where
  after-Applied :
      (doc doc' : PbConfig) (clusters : Dict PbClusterState) (r : ScheduleResult)
      (desired : Dict Clusters)
      → reconciliate p doc.clusters desired ≡ some (clusters, r)
      → after now r (record doc { clusters = clusters }) ≡ write doc'
      → Applied doc doc'
  after-Applied doc doc' clusters noop desired h e = absurd (cc e)
  after-Applied doc doc' clusters not_ready desired h e = inl (ground arith)
  after-Applied doc doc' clusters reschedule desired h e = inl (ground arith)
  after-Applied doc doc' clusters no_reschedule desired h e =
      let same : clusters ≡ doc'.clusters = ground arith in
      inr (
        ground arith,
        ground arith,
        subst (λ x. All (λ c. Gone c.1) x) same
            (reconciliate-Gone p doc.clusters clusters desired h),
      )

  -- When the manager writes back a pending document, the checksum that was applied last is kept,
  -- unless none of the clusters has a current state or a task any more; then the manifest's own
  -- checksum is taken and the manifest is scheduled.
  pub pending-Applied :
      (doc doc' : PbConfig) → pending p create_desired_state now doc ≡ write doc' → Applied doc doc'
  unfolding pending
  pending-Applied doc doc' h = elim (Option-cases (create_desired_state doc)) [
    | inl n ↦ absurd (ground arith)
    | inr (desired, n) ↦ elim (Bool-cases (valid_state_transition doc.manifest.state scheduled)) [
      | inr refused ↦ absurd (ground arith)
      | inl may ↦ elim (Option-cases (reconciliate p doc.clusters desired)) [
        | inl m ↦ absurd (ground arith)
        | inr ((clusters, r), m) ↦ after-Applied doc doc' clusters r desired m (ground arith)
      ]
    ]
  ]
