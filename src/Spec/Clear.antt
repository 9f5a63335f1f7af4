-- ===== src/Spec/Clear.antt =====
-- proto/pb/spec/utils_consume.go: ConsumeClearResult, and how a task gives access to its clusters
-- (MutableClusters, ReplaceClusters).
use claudie.Prelude.{
  Bool, true, false, List, [], ◌∷◌, Option, none, some, contains, delete_func, if◌then◌else◌,
}
use claudie.Spec.{LbCluster, Clusters, lb_id}
use claudie.Spec.Task.{Task, TaskState, ClearState}

-- Why a result is refused.
pub data ConsumeError : Type 0 where
  load_balancers_exist invalid_deleted_nodepool invalid_load_balancer cluster_mismatch :
      ConsumeError

-- What consuming a result leaves: on a refusal also the value as it was changed until then.
pub data Consumed {ℓ} (A : Type ℓ) : Type ℓ where
  ok : A → Consumed A
  refused : ConsumeError → A → Consumed A
  panics : Consumed A

-- The pointers `k8s` and `lbs` into the task; `none` is the `default` case.
abbrev pub state_of : Task → Option TaskState
state_of Task.unset = none
state_of (Task.create s) = some s
state_of (Task.update s d) = some s
state_of (Task.delete s) = some s

-- Writes through those pointers.
abbrev pub with_state : TaskState → Task → Task
with_state s Task.unset = Task.unset
with_state s (Task.create _) = Task.create s
with_state s (Task.update _ d) = Task.update s d
with_state s (Task.delete _) = Task.delete s

-- `MutableClusters`; `none` is the error "unknown task".
unfoldable pub mutable_clusters : Task → Option Clusters
mutable_clusters t = elim (state_of t) [
  | none ↦ none
  | some s ↦ some (record { k8s = s.k8s; load_balancers = s.load_balancers })
]

-- `ReplaceClusters`
unfoldable pub replace_clusters : Clusters → Task → Task
replace_clusters c = with_state (record { k8s = c.k8s; load_balancers = c.load_balancers })

abbrev pub is_empty {ℓ} : {A : Type ℓ} → List A → Bool
is_empty [] = true
is_empty (_ ∷ _) = false

-- `result.Clear.K8S != nil && *result.Clear.K8S`
abbrev pub clears_k8s : ClearState → Bool
clears_k8s c = elim c.k8s [ none ↦ false | some b ↦ b ]

-- `lbFilter`
abbrev pub is_cleared : ClearState → LbCluster → Bool
is_cleared c lb = contains (lb_id lb) c.load_balancers_ids

unfoldable pub clear_state : ClearState → TaskState → Consumed TaskState
clear_state c s =
    let lbs = delete_func (is_cleared c) s.load_balancers in
    let kept = record s { load_balancers = lbs } in
    if clears_k8s c
    then if is_empty lbs
      then ok (record { k8s = none; load_balancers = [] })
      else refused load_balancers_exist kept
    else ok kept

-- `ConsumeClearResult`
unfoldable pub consume_clear_result : ClearState → Task → Consumed Task
consume_clear_result c t = elim (state_of t) [
  | none ↦ ok t
  | some s ↦ elim (clear_state c s) [
    | ok s' ↦ ok (with_state s' t)
    | refused e s' ↦ refused e (with_state s' t)
    | panics ↦ panics
  ]
]
