-- ===== src/Spec/Update/Overlay.antt =====
-- The loadbalancers of a task after ConsumeUpdateResult and Commit, as a map from ids: the received
-- ones over those of before.
use claudie.Prelude.{
  ◌≡◌, refl, List, Option, none, some, String, arith, ap, Option-cases, inl, inr, ◌∙◌,
}
use claudie.Spec.{K8sCluster, LbCluster, find_by_id}
use claudie.Spec.Task.{Task, TaskState, UpdateState, Delta, update_result}
use claudie.Spec.Clear.{Consumed, ok, refused, panics, state_of, ConsumeError}
use claudie.Spec.Merge.{merge, or_else, find_by_id-merge}
use claudie.Spec.Update.{
  incoming, apply_update, replace_k8s, then_apply, on_k8s, consume_delete_of, map_consumed,
  with_update, update_state, consume_update_result, commit, delta_of,
}
use claudie.Spec.Update.Identity.{consume_update_result-Applied, state_of-with_update}

-- When an update result is consumed, a search by id among the task's loadbalancers finds the
-- first received one of that id that targets the cluster, and otherwise what it found before.
pub find_by_id-consume_update_result :
    (r : UpdateState) (t t' : Task) (s : TaskState) (k : K8sCluster) (received : List LbCluster)
    → state_of t ≡ some s
    → s.k8s ≡ some k
    → r.load_balancers ≡ some received
    → consume_update_result r t ≡ ok t'
    → (s' : TaskState) × (state_of t' ≡ some s')
      × ((target : String)
          → find_by_id target s'.load_balancers
            ≡ or_else
                (find_by_id target (incoming k.cluster_info.name received))
                (find_by_id target s.load_balancers))
find_by_id-consume_update_result r t t' s k received e was reported c =
    let (s', now, a) = consume_update_result-Applied r t t' s e c in
    let same_k : a.before ≡ k = ground arith in
    let same_r : a.received ≡ received = ground arith in
    let merged : s'.load_balancers
        ≡ merge s.load_balancers (incoming k.cluster_info.name received) =
      rw (← same_k, ← same_r) (ap (λ x. x.load_balancers) a.state) in
    (s', now, λ target. rw merged (find_by_id-merge target s.load_balancers _))

-- A committed update over an earlier one: a search finds what the later one reports, and
-- otherwise what the earlier one did. The later kubernetes cluster, if any, replaces the earlier.
pub find_by_id-commit :
    (desired old : UpdateState) (ds lbs : List LbCluster)
    → desired.load_balancers ≡ some ds
    → old.load_balancers ≡ some lbs
    → (merged : List LbCluster) × (commit desired (update_result old)
        ≡ some (
            update_result
              (record { k8s = or_else desired.k8s old.k8s; load_balancers = some merged })))
      × ((target : String)
          → find_by_id target merged ≡ or_else (find_by_id target ds) (find_by_id target lbs))
unfolding commit
find_by_id-commit desired old ds lbs e f =
    (merge lbs ds, rw (f, e) refl, λ target. find_by_id-merge target lbs ds)

-- A refusal gives back the state that was there.
abbrev Keeps : TaskState → Consumed (TaskState × Option Delta) → Type 0
Keeps s (refused e (s', d)) = s' ≡ s
Keeps s (ok _) = Unit
Keeps s panics = Unit

apply_update-Keeps :
    (r : UpdateState) (s : TaskState) (k : K8sCluster) (d : Option Delta)
    → Keeps s (apply_update r s k d)
unfolding apply_update
apply_update-Keeps r s k d = elim (Option-cases (replace_k8s k r.k8s)) [
  | inl e ↦ rw (e, apply_update) refl
  | inr (k', e) ↦ elim (Option-cases r.load_balancers) [
    | inl f ↦ rw (e, f, apply_update) tt
    | inr (lbs, f) ↦ rw (e, f, apply_update) tt
  ]
]

then_apply-Keeps :
    (r : UpdateState) (s : TaskState) (k : K8sCluster) (c : Consumed (Option Delta))
    → Keeps s (then_apply r s k c)
then_apply-Keeps r s k (ok d) = apply_update-Keeps r s k d
then_apply-Keeps r s k (refused e d) = refl
then_apply-Keeps r s k panics = tt

on_k8s-Keeps :
    (r : UpdateState) (s : TaskState) (d : Option Delta) (o : Option K8sCluster)
    → Keeps s (on_k8s r s d o)
on_k8s-Keeps r s d none = tt
on_k8s-Keeps r s d (some k) = then_apply-Keeps r s k (consume_delete_of k s.load_balancers d)

update_state-Keeps :
    (r : UpdateState) (s : TaskState) (d : Option Delta) → Keeps s (update_state r s d)
unfolding update_state
update_state-Keeps r s d = on_k8s-Keeps r s d s.k8s

kept_by :
    (t t' : Task) (s : TaskState) (c : Consumed (TaskState × Option Delta)) {x : ConsumeError}
    → state_of t ≡ some s
    → Keeps s c
    → map_consumed (with_update t) c ≡ refused x t'
    → state_of t' ≡ state_of t
kept_by t t' s (ok _) e h f = absurd (cc f)
kept_by t t' s panics e h f = absurd (cc f)
kept_by t t' s (refused y (s', d)) e h f =
    let done : with_update t (s', d) ≡ t' = ground arith in
    rw (← done, e) (state_of-with_update t s s' d e ∙ ap some h)

-- A refused update result leaves the clusters of the task as they were.
pub consume_update_result_refused :
    (r : UpdateState) (t t' : Task) {x : ConsumeError}
    → consume_update_result r t ≡ refused x t'
    → state_of t' ≡ state_of t
unfolding consume_update_result
consume_update_result_refused r t t' e = elim (Option-cases (state_of t)) [
  | inl n ↦ absurd (ground arith)
  | inr (s, n) ↦
      kept_by t t' s (update_state r s (delta_of t)) n (update_state-Keeps r s (delta_of t))
        (rw (n, consume_update_result) at e)
]
