-- ===== src/Spec/Update/Identity.antt =====
-- What ConsumeUpdateResult keeps: the identity of the kubernetes cluster, the places of the
-- loadbalancers, and everything when it refuses.
use claudie.Prelude.{
  ◌≡◌, refl, ◌++◌, List, Option, none, some, map, arith, Option-cases, inl, inr, ap, ◌∙◌,
  map-append, eq_iff, ap₂, contains, delete_func,
}
use claudie.Spec.{K8sCluster, LbCluster, id, lb_id}
use claudie.Spec.Task.{Task, TaskState, Delta, UpdateState}
use claudie.Spec.Clear.{Consumed, ok, refused, panics, state_of}
use claudie.Spec.Merge.{merge, update_existing, ids-update_existing}
use claudie.Spec.Merge.Fresh.{IdsDistinct, update_existing-fresh_of}
use claudie.Spec.Update.{
  incoming, then_apply, map_consumed, with_update, delta_of, replace_k8s, apply_update,
  update_state, consume_delete_of, consume_update_result,
}

-- What a successful update consists of.
pub record Applied (r : UpdateState) (s : TaskState) (s' : TaskState) : Type 0 where
  pub before : K8sCluster
  pub after : K8sCluster
  pub received : List LbCluster
  pub was : s.k8s ≡ some before
  pub replaced : replace_k8s before r.k8s ≡ some after
  pub reported : r.load_balancers ≡ some received
  pub state : s' ≡ record {
    k8s = some after;
    load_balancers = merge s.load_balancers (incoming before.cluster_info.name received);
  }

apply_update-Applied :
    (r : UpdateState) (s s' : TaskState) (k : K8sCluster) (d d' : Option Delta)
    → s.k8s ≡ some k
    → apply_update r s k d ≡ ok (s', d')
    → Applied r s s'
unfolding apply_update
apply_update-Applied r s s' k d d' was e = elim (Option-cases (replace_k8s k r.k8s)) [
  | inl bad ↦ ground arith
  | inr (k', good) ↦ elim (Option-cases r.load_balancers) [
    | inl nil ↦ ground arith
    | inr (received, some_lbs) ↦ record {
      before = k;
      after = k';
      received = received;
      was = was;
      replaced = good;
      reported = some_lbs;
      state = ground arith;
    }
  ]
]

then_apply-Applied :
    (r : UpdateState) (s s' : TaskState) (k : K8sCluster) (c : Consumed (Option Delta))
    (d' : Option Delta)
    → s.k8s ≡ some k
    → then_apply r s k c ≡ ok (s', d')
    → Applied r s s'
then_apply-Applied r s s' k (ok d) d' was e = apply_update-Applied r s s' k d d' was e
then_apply-Applied r s s' k (refused x d) d' was e = absurd (cc e)
then_apply-Applied r s s' k panics d' was e = absurd (cc e)

pub update_state-Applied :
    (r : UpdateState) (s s' : TaskState) (d d' : Option Delta)
    → update_state r s d ≡ ok (s', d')
    → Applied r s s'
unfolding update_state
update_state-Applied r s s' d d' e = elim (Option-cases s.k8s) [
  | inl nil ↦ absurd (ground arith)
  | inr (k, was) ↦
      then_apply-Applied r s s' k (consume_delete_of k s.load_balancers d) d' was
        (rw (← e) (ground arith))
]

pub state_of-with_update :
    (t : Task) (s s' : TaskState) (d : Option Delta)
    → state_of t ≡ some s
    → state_of (with_update t (s', d)) ≡ some s'
state_of-with_update Task.unset s s' d e = absurd (cc e)
state_of-with_update (Task.create _) s s' d e = refl
state_of-with_update (Task.delete _) s s' d e = refl
state_of-with_update (Task.update _ _) s s' none e = refl
state_of-with_update (Task.update _ _) s s' (some d) e = refl

-- The result of a consumption that went through, refused or panicked, by what the body gave.
map_consumed-ok :
    (t t' : Task) (c : Consumed (TaskState × Option Delta))
    → map_consumed (with_update t) c ≡ ok t'
    → (s' : TaskState) × (d' : Option Delta) × (c ≡ ok (s', d')) × (with_update t (s', d') ≡ t')
map_consumed-ok t t' (ok (s', d')) e = (s', d', refl, ground arith)
map_consumed-ok t t' (refused x _) e = absurd (cc e)
map_consumed-ok t t' panics e = absurd (cc e)

-- What a task's state becomes when its update result is consumed.
pub consume_update_result-Applied :
    (r : UpdateState) (t t' : Task) (s : TaskState)
    → state_of t ≡ some s
    → consume_update_result r t ≡ ok t'
    → (s' : TaskState) × (state_of t' ≡ some s') × Applied r s s'
unfolding consume_update_result
consume_update_result-Applied r t t' s e c =
    let (s', d', body, done) =
      map_consumed-ok t t' (update_state r s (delta_of t)) (rw (e, consume_update_result) at c) in
    (
      s',
      rw (← done) (state_of-with_update t s s' d' e),
      update_state-Applied r s s' (delta_of t) d' body,
    )

id-replace_k8s :
    (k k' : K8sCluster) (o : Option K8sCluster)
    → replace_k8s k o ≡ some k'
    → id k'.cluster_info ≡ id k.cluster_info
unfolding replace_k8s
id-replace_k8s k k' none e = ground arith
id-replace_k8s k k' (some received) e =
    ground (arith, eq_iff (id received.cluster_info) (id k.cluster_info))

-- When an update result is consumed, and no two of the received loadbalancers that target the cluster
-- share an id, the task holds the kubernetes cluster under the same id, and its loadbalancers are, by
-- id, those of before in their places, followed by exactly the received ones that target the cluster
-- and whose id the task lacked, in the order in which they were received.
pub consume_update_result-ids :
    (r : UpdateState) (t t' : Task) (s : TaskState) (k : K8sCluster) (received : List LbCluster)
    → state_of t ≡ some s
    → s.k8s ≡ some k
    → r.load_balancers ≡ some received
    → IdsDistinct (incoming k.cluster_info.name received)
    → consume_update_result r t ≡ ok t'
    → (k' : K8sCluster) × (s' : TaskState) × (state_of t' ≡ some s')
      × (s'.k8s ≡ some k')
      × (id k'.cluster_info ≡ id k.cluster_info)
      × (map lb_id s'.load_balancers
          ≡ map lb_id s.load_balancers
            ++ map lb_id (
                delete_func
                  (λ u. contains (lb_id u) (map lb_id s.load_balancers))
                  (incoming k.cluster_info.name received)))
unfolding merge
consume_update_result-ids r t t' s k received e was reported distinct c =
    let (s', now, a) = consume_update_result-Applied r t t' s e c in
    let same_k : a.before ≡ k = ground (arith, a.was) in
    let same_r : a.received ≡ received = ground (arith, a.reported) in
    let us = incoming k.cluster_info.name received in
    let merged : s'.load_balancers ≡ merge s.load_balancers us =
      rw (← same_k, ← same_r) (ap (λ x. x.load_balancers) a.state) in
    (
      a.after,
      s',
      now,
      ap (λ x. x.k8s) a.state,
      id-replace_k8s a.before a.after r.k8s a.replaced ∙ ap (λ x. id x.cluster_info) same_k,
      ap (map lb_id) merged
          ∙ map-append lb_id (update_existing s.load_balancers us).0
              (update_existing s.load_balancers us).1
          ∙ ap₂ (λ x y. x ++ map lb_id y) (ids-update_existing s.load_balancers us)
              (update_existing-fresh_of s.load_balancers us distinct),
    )
