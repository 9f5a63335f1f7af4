-- ===== src/Spec/Settled.antt =====
-- ConsumeUpdateResult turns every request of an Update task into its consumed form, once.
use claudie.Prelude.{
  ◌≡◌, refl, Bool, true, false, List, Option, none, some, arith, Option-cases, inl, inr,
}
use claudie.Spec.{K8sCluster, LbCluster}
use claudie.Spec.Task.{
  Task, TaskState, UpdateState, Delta, tf_add_load_balancer, tf_add_load_balancer_nodes,
  tf_replace_dns, tf_add_k8s_nodes, tf_add_load_balancer_roles, tf_delete_load_balancer_nodes,
  tf_move_node_pool_to_autoscaled, tf_move_node_pool_from_autoscaled,
  tf_replace_role_external_settings, ans_replace_proxy, ans_replace_target_pools,
  ans_replace_role_internal_settings, kpatch_nodes, k_delete_nodes,
}
use claudie.Spec.Clear.{Consumed, ok, refused, panics}
use claudie.Spec.Request.{consume_delete, consume_replace}
use claudie.Spec.Update.{
  apply_update, then_apply, on_k8s, consume_delete_of, map_consumed, with_update, update_state,
  consume_update_result, delta_of, replace_k8s,
}

-- The requests of manifest.proto: what a stage is still asked to do.
unfoldable pub is_request : Delta → Bool
is_request (tf_add_load_balancer _) = true
is_request (tf_add_load_balancer_nodes _ _) = true
is_request (tf_replace_dns _ _ _) = true
is_request (tf_add_k8s_nodes _) = true
is_request (tf_add_load_balancer_roles _ _) = true
is_request (tf_delete_load_balancer_nodes _ _) = true
is_request (tf_move_node_pool_to_autoscaled _ _) = true
is_request (tf_move_node_pool_from_autoscaled _) = true
is_request (tf_replace_role_external_settings _ _ _ _ _) = true
is_request (ans_replace_proxy _) = true
is_request (ans_replace_target_pools _ _) = true
is_request (ans_replace_role_internal_settings _ _ _ _) = true
is_request (kpatch_nodes _) = true
is_request (k_delete_nodes _) = true
is_request _ = false

-- The requests to delete nodes.
is_deletion : Delta → Bool
is_deletion (tf_delete_load_balancer_nodes _ _) = true
is_deletion (k_delete_nodes _) = true
is_deletion _ = false

consume_replace-settles :
    (k : K8sCluster) (d : Delta) → is_deletion d ≡ false → is_request (consume_replace k d) ≡ false
unfolding is_request is_deletion consume_replace
consume_replace-settles k (tf_delete_load_balancer_nodes _ _) h = absurd (cc h)
consume_replace-settles k (k_delete_nodes _) h = absurd (cc h)
consume_replace-settles k _ h = refl

consume_delete-settles :
    (k : K8sCluster) (lbs : List LbCluster) (d d' : Delta)
    → consume_delete k lbs d ≡ ok d'
    → is_deletion d' ≡ false
unfolding is_deletion consume_delete
consume_delete-settles k lbs (tf_delete_load_balancer_nodes _ _) d' e = ground arith
consume_delete-settles k lbs (k_delete_nodes _) d' e = ground arith
consume_delete-settles k lbs _ d' e = ground arith

-- What is no request is left alone.
consume_replace_settled :
    (k : K8sCluster) (d : Delta) → is_request d ≡ false → consume_replace k d ≡ d
unfolding is_request consume_replace
consume_replace_settled k (tf_delete_load_balancer_nodes _ _) h = refl
consume_replace_settled k _ h = ground arith

consume_delete_settled :
    (k : K8sCluster) (lbs : List LbCluster) (d : Delta)
    → is_request d ≡ false
    → consume_delete k lbs d ≡ ok d
unfolding is_request consume_delete
consume_delete_settled k lbs (k_delete_nodes _) h = absurd (cc h)
consume_delete_settled k lbs _ h = ground arith

apply_update-delta :
    (r : UpdateState) (s s' : TaskState) (k : K8sCluster) (d : Delta) (e' : Option Delta)
    → apply_update r s k (some d) ≡ ok (s', e')
    → (k' : K8sCluster) × (e' ≡ some (consume_replace k' d))
unfolding apply_update
apply_update-delta r s s' k d e' e = elim (Option-cases (replace_k8s k r.k8s)) [
  | inl f ↦ absurd (ground arith)
  | inr (k', f) ↦ elim (Option-cases r.load_balancers) [
    | inl g ↦ absurd (ground arith)
    | inr (lbs, g) ↦ (k', ground arith)
  ]
]

-- How the request goes through the body: first as a deletion, then as a replacement.
abbrev Through : Delta → K8sCluster → List LbCluster → Option Delta → Type 0
Through d k lbs e' =
    (k' : K8sCluster) × (d1 : Delta) × (consume_delete k lbs d ≡ ok d1)
    × (e' ≡ some (consume_replace k' d1))

after_delete :
    (r : UpdateState) (s s' : TaskState) (k : K8sCluster) (d : Delta) (e' : Option Delta)
    (c : Consumed Delta)
    → consume_delete k s.load_balancers d ≡ c
    → then_apply r s k (consume_delete_of k s.load_balancers (some d)) ≡ ok (s', e')
    → Through d k s.load_balancers e'
after_delete r s s' k d e' (ok d1) f e =
    let (k', g) = apply_update-delta r s s' k d1 e' (rw (f, then_apply) at e) in (k', d1, f, g)
after_delete r s s' k d e' (refused x d1) f e = absurd (ground arith)
after_delete r s s' k d e' panics f e = absurd (ground arith)

on_k8s-Through :
    (r : UpdateState) (s s' : TaskState) (d : Delta) (e' : Option Delta) (o : Option K8sCluster)
    → on_k8s r s (some d) o ≡ ok (s', e')
    → (k : K8sCluster) × Through d k s.load_balancers e'
on_k8s-Through r s s' d e' none e = absurd (cc e)
on_k8s-Through r s s' d e' (some k) e = (k, after_delete r s s' k d e' _ refl e)

done_delta :
    (s s0 : TaskState) (d : Delta) (t' : Task) (c : Consumed (TaskState × Option Delta))
    → map_consumed (with_update (Task.update s0 d)) c ≡ ok t'
    → (s' : TaskState) × (e' : Option Delta) × (c ≡ ok (s', e'))
      × ((d2 : Delta) → e' ≡ some d2 → delta_of t' ≡ some d2)
done_delta s s0 d t' (ok (s', e')) e = (s', e', refl, λ d2 f. ground arith)
done_delta s s0 d t' (refused x _) e = absurd (cc e)
done_delta s s0 d t' panics e = absurd (cc e)

consumed-Through :
    (r : UpdateState) (s : TaskState) (d : Delta) (t' : Task)
    → consume_update_result r (Task.update s d) ≡ ok t'
    → (k k' : K8sCluster) × (d1 : Delta) × (consume_delete k s.load_balancers d ≡ ok d1)
      × (delta_of t' ≡ some (consume_replace k' d1))
unfolding consume_update_result update_state
consumed-Through r s d t' e =
    let (s', e', f, g) = done_delta s s d t' (update_state r s (some d)) e in
    let (k, through) = on_k8s-Through r s s' d e' s.k8s f in
    let (k', d1, h, i) = through in (k, k', d1, h, g (consume_replace k' d1) i)

-- When the update result of an Update task is consumed, the task no longer holds a request; and
-- a task that held none keeps what it held.
pub consume_update_result_settles :
    (r : UpdateState) (s : TaskState) (d : Delta) (t' : Task)
    → consume_update_result r (Task.update s d) ≡ ok t'
    → (d' : Delta) × (delta_of t' ≡ some d')
      × (is_request d' ≡ false)
      × (is_request d ≡ false → d' ≡ d)
consume_update_result_settles r s d t' e =
    let (k, k', d1, h, i) = consumed-Through r s d t' e in
    (
      consume_replace k' d1,
      i,
      consume_replace-settles k' d1 (consume_delete-settles k s.load_balancers d d1 h),
      λ settled.
          let same : d1 ≡ d = ground (arith, consume_delete_settled k s.load_balancers d settled) in
          rw same (consume_replace_settled k' d settled),
    )
