-- ===== src/Spec/Update.antt =====
-- proto/pb/spec/utils_consume.go: ConsumeUpdateResult, and the builder of update results (Commit).
pub mod Identity
pub mod Overlay
use claudie.Prelude.{
  Bool, true, false, List, [], ◌++◌, Option, none, some, String, str_eq, delete_func, not,
  if◌then◌else◌,
}
use claudie.Spec.{K8sCluster, LbCluster, id}
use claudie.Spec.Task.{
  Task, TaskState, Delta, UpdateState, Outcome, update_result, none_result, clear_result,
}
use claudie.Spec.Clear.{Consumed, ok, refused, panics, cluster_mismatch, state_of}
use claudie.Spec.Merge.{merge, or_else}
use claudie.Spec.Request.{consume_delete, consume_replace}

-- "update.LoadBalancers" less those that target another cluster.
abbrev pub incoming : String → List LbCluster → List LbCluster
incoming name = delete_func (λ lb. not (str_eq lb.targeted_k8s name))

-- The kubernetes cluster after the update, or `none` if the received one has another id.
unfoldable pub replace_k8s : K8sCluster → Option K8sCluster → Option K8sCluster
replace_k8s k none = some k
replace_k8s k (some received) =
    if str_eq (id received.cluster_info) (id k.cluster_info) then some received else none

abbrev pub consume_delete_of : K8sCluster → List LbCluster → Option Delta → Consumed (Option Delta)
consume_delete_of k lbs none = ok none
consume_delete_of k lbs (some d) = elim (consume_delete k lbs d) [
  | ok d' ↦ ok (some d')
  | refused e d' ↦ refused e (some d')
  | panics ↦ panics
]

abbrev pub consume_replace_of : K8sCluster → Option Delta → Option Delta
consume_replace_of k none = none
consume_replace_of k (some d) = some (consume_replace k d)

-- From "if k := result.Update.K8S" on, with the request `d` as the deletions left it.
unfoldable pub apply_update :
    UpdateState → TaskState → K8sCluster → Option Delta → Consumed (TaskState × Option Delta)
unfolding replace_k8s
apply_update r s k d = elim (replace_k8s k r.k8s) [
  | none ↦ refused cluster_mismatch (s, d)
  | some k' ↦ elim r.load_balancers [
    | none ↦ panics
    | some received ↦ ok (
      record {
        k8s = some k';
        load_balancers = merge s.load_balancers (incoming k.cluster_info.name received);
      },
      consume_replace_of k' d,
    )
  ]
]

-- A refused deletion returns, with nothing else done.
abbrev pub then_apply :
    UpdateState
    → TaskState
    → K8sCluster
    → Consumed (Option Delta)
    → Consumed (TaskState × Option Delta)
then_apply r s k (ok d) = apply_update r s k d
then_apply r s k (refused e d) = refused e (s, d)
then_apply r s k panics = panics

-- The body of ConsumeUpdateResult, by what `*k8s` is; a nil one is dereferenced.
abbrev pub on_k8s :
    UpdateState → TaskState → Option Delta → Option K8sCluster → Consumed (TaskState × Option Delta)
on_k8s r s d none = panics
on_k8s r s d (some k) = then_apply r s k (consume_delete_of k s.load_balancers d)

unfoldable pub update_state :
    UpdateState → TaskState → Option Delta → Consumed (TaskState × Option Delta)
unfolding apply_update
update_state r s d = on_k8s r s d s.k8s

-- `te.GetUpdate().Delta`
abbrev pub delta_of : Task → Option Delta
delta_of (Task.update s d) = some d
delta_of _ = none

-- Writes through the pointers and `update.Delta`.
abbrev pub with_update : Task → TaskState × Option Delta → Task
with_update Task.unset _ = Task.unset
with_update (Task.create _) (s, _) = Task.create s
with_update (Task.delete _) (s, _) = Task.delete s
with_update (Task.update _ d) (s, none) = Task.update s d
with_update (Task.update _ _) (s, some d) = Task.update s d

abbrev pub map_consumed {ℓ κ} : {A : Type ℓ} {B : Type κ} → (A → B) → Consumed A → Consumed B
map_consumed f (ok a) = ok (f a)
map_consumed f (refused e a) = refused e (f a)
map_consumed f panics = panics

-- `ConsumeUpdateResult`
unfoldable pub consume_update_result : UpdateState → Task → Consumed Task
unfolding update_state
consume_update_result r t = elim (state_of t) [
  | none ↦ ok t
  | some s ↦ map_consumed (with_update t) (update_state r s (delta_of t))
]

-- `Commit` of an update: over an earlier update result, or in place of any other result. `none` is
-- the dereference of a nil list of loadbalancers.
unfoldable pub commit : UpdateState → Outcome → Option Outcome
commit desired (update_result old) = elim old.load_balancers [
  | none ↦ none
  | some lbs ↦ elim desired.load_balancers [
    | none ↦ none
    | some ds ↦ some (
        update_result
          (record { k8s = or_else desired.k8s old.k8s; load_balancers = some (merge lbs ds) }))
  ]
]
commit desired _ = some (update_result desired)
