-- ===== src/Manager/Reconcile/Final/Applied.antt =====
-- reconciliate: what the result for a document says of its clusters.
use claudie.Prelude.{
  ◌≤◌, ◌≡◌, refl, Bool, true, false, List, [], ◌∷◌, some, Dict, All, length, arith, ap, subst, ◌∙◌,
  Option-cases, inl, inr,
}
use claudie.Pools.{is_empty}
use claudie.Spec.{Clusters}
use claudie.Store.States.{PbClusterState, pb_wait_for_pickup}
use claudie.Manager.Reconcile.{ScheduleResult, reschedule, no_reschedule, noop, not_ready, Planner}
use claudie.Manager.Reconcile.Parts.{is_nil}
use claudie.Manager.Reconcile.Cluster.{reconcile_cluster}
use claudie.Manager.Reconcile.Busy.Visits.{reconcile_cluster-Busy, reconcile_cluster-ends}
use claudie.Manager.Reconcile.Final.{
  desired_of, is_result, count_results, final_result, put_desired, reconcile_clusters, reconciliate,
  populate_entries_for_new_clusters,
}

-- Nothing is left of the cluster: no current state, and no task.
abbrev pub Gone : PbClusterState → Type 0
Gone cs = (is_nil cs.current ≡ true) × (is_empty cs.in_flight ≡ true)

abbrev pub Waiting : PbClusterState → Type 0
Waiting cs =
    (is_empty cs.in_flight ≡ false)
    × (cs.state.status ≡ pb_wait_for_pickup)
    × (cs.state.description ≡ "")

-- What a result says of its cluster.
abbrev pub Says : ScheduleResult → PbClusterState → Type 0
Says reschedule cs = Waiting cs
Says no_reschedule cs = Gone cs
Says noop cs = Unit
Says not_ready cs = Unit

abbrev pub AllSay : List ScheduleResult → Dict PbClusterState → Type 0
AllSay [] [] = Unit
AllSay (r ∷ rs) ((_, cs) ∷ clusters) = Says r cs × AllSay rs clusters
AllSay _ _ = false ≡ true

module _ (p : Planner) where
  says :
      (desired d' : Clusters) (cs cs' : PbClusterState) (r : ScheduleResult)
      → reconcile_cluster p desired cs ≡ some (cs', d', r)
      → Says r cs'
  says desired d' cs cs' reschedule h = reconcile_cluster-Busy p desired d' cs cs' h
  says desired d' cs cs' no_reschedule h =
      let (a, b, c, e, g) = reconcile_cluster-ends p desired d' cs cs' h in
      (ap is_nil e ∙ a, ap is_empty g ∙ c)
  says desired d' cs cs' noop h = tt
  says desired d' cs cs' not_ready h = tt

  says_each :
      (clusters clusters' : Dict PbClusterState) (desired desired' : Dict Clusters)
      (rs : List ScheduleResult)
      → reconcile_clusters p clusters desired ≡ some (clusters', desired', rs)
      → AllSay rs clusters'
  unfolding reconcile_clusters
  says_each [] clusters' desired desired' rs h =
      let a : clusters' ≡ [] = ground arith in let b : rs ≡ [] = ground arith in rw (a, b) tt
  says_each ((name, cs) ∷ clusters) clusters' desired desired' rs h =
      elim (Option-cases (reconcile_cluster p (desired_of name desired) cs)) [
        | inl n ↦ absurd (ground arith)
        | inr ((cs', d, r), n) ↦
            elim (Option-cases (reconcile_clusters p clusters (put_desired p name d desired))) [
              | inl m ↦ absurd (ground arith)
              | inr ((rest, desired'', rs'), m) ↦
                  let a : (name, cs') ∷ rest ≡ clusters' = ground arith in
                  let b : r ∷ rs' ≡ rs = ground arith in
                  subst (λ x. AllSay rs x) a
                    (subst (λ x. AllSay x ((name, cs') ∷ rest)) b
                      (
                        says (desired_of name desired) d cs cs' r n,
                        says_each clusters rest (put_desired p name d desired) desired'' rs' m,
                      ))
            ]
      ]

abbrev pub is_reschedule : ScheduleResult → Bool
is_reschedule r = is_result reschedule r

count-le : (r : ScheduleResult) (rs : List ScheduleResult) → count_results r rs ≤ length rs
unfolding count_results
count-le r [] = omega arith
count-le r (x ∷ xs) = ground (arith, count-le r xs)

-- Every result ends for good.
ends_each :
    (rs : List ScheduleResult)
    → count_results no_reschedule rs ≡ length rs
    → All (λ r. r ≡ no_reschedule) rs
unfolding count_results
ends_each [] h = tt
ends_each (no_reschedule ∷ rs) h = (refl, ends_each rs (omega arith))
ends_each (reschedule ∷ rs) h = absurd (omega (arith, count-le no_reschedule rs))
ends_each (noop ∷ rs) h = absurd (omega (arith, count-le no_reschedule rs))
ends_each (not_ready ∷ rs) h = absurd (omega (arith, count-le no_reschedule rs))

final-ends :
    (rs : List ScheduleResult)
    → final_result rs ≡ no_reschedule
    → count_results no_reschedule rs ≡ length rs
unfolding final_result
final-ends rs h = ground arith

nothing_left :
    (rs : List ScheduleResult) (clusters : Dict PbClusterState)
    → AllSay rs clusters
    → All (λ r. r ≡ no_reschedule) rs
    → All (λ e. Gone e.1) clusters
nothing_left [] [] s a = tt
nothing_left (r ∷ rs) ((name, cs) ∷ clusters) (s, ss) (a, as_) =
    (subst (λ x. Says x cs) a s, nothing_left rs clusters ss as_)
nothing_left [] (_ ∷ _) s a = absurd (cc s)
nothing_left (_ ∷ _) [] s a = absurd (cc s)

-- If the result for a document is that it is not scheduled again, then none of its clusters has a
-- current state or a task.
pub reconciliate-Gone :
    (p : Planner) (clusters clusters' : Dict PbClusterState) (desired : Dict Clusters)
    → reconciliate p clusters desired ≡ some (clusters', no_reschedule)
    → All (λ e. Gone e.1) clusters'
unfolding reconciliate
reconciliate-Gone p clusters clusters' desired h =
    elim (Option-cases
      (reconcile_clusters p (populate_entries_for_new_clusters clusters desired) desired)) [
        | inl n ↦ absurd (ground arith)
        | inr ((x, desired', rs), n) ↦
            let same : x ≡ clusters' = ground arith in
            subst (λ y. All (λ e. Gone e.1) y) same
              (nothing_left rs x (says_each p _ x desired desired' rs n)
                (ends_each rs (final-ends rs (ground arith))))
      ]
