-- ===== src/Manager/Reconcile.antt =====
-- services/manager/internal/service/reconciliation.go: the state of a cluster as reconciliate has
-- it, and the decisions that it is made of. What is planned for a difference or for unreachable
-- nodes (reconciliate_kubernetes.go, reconciliate_loadbalancers.go, reconciliate_unreachable.go)
-- and what is found on the network (healthcheck.go) are operations of an interface.
pub mod Union
pub mod Parts
pub mod Cluster
pub mod Busy
pub mod Stays
pub mod Final
use claudie.Prelude.{
  ℕ, ◌+◌, ◌-◌, ◌==◌, Bool, true, false, not, ◌&&◌, ◌||◌, List, [], ◌∷◌, Option, none, some, String,
  Dict, lookup, insert, has, length, get_elem?, leb, ltb, str_eq, is_some, if◌then◌else◌,
}
use claudie.Spec.{Clusters, K8sCluster}
use claudie.Spec.Task.{
  Task, Delta, api_endpoint_change, delete_load_balancer_roles, delete_load_balancer,
  tf_delete_load_balancer_nodes, deleted_load_balancer_nodes, k8s_api_endpoint, k_delete_nodes,
  deleted_k8s_nodes, upgrade_version, replaced_dns,
}
use claudie.Store.Stages.{
  PbStage, PbKind, unset, pb_terraformer, pb_ansibler, pb_kube_eleven, pb_kuber,
}
use claudie.Store.Convert.{PbTaskEvent, PbEvent, unknown, create, update, delete, ◌>>=◌}
use claudie.Manager.Diff.Kubernetes.{KubernetesDiffResult, kubernetes_diff}
use claudie.Manager.Diff.LoadBalancers.{ProtoEqual, LoadBalancersDiffResult, load_balancers_diff}

pub data ScheduleResult : Type 0 where
  reschedule no_reschedule noop not_ready : ScheduleResult

pub record DiffResult : Type 0 where
  pub kubernetes : KubernetesDiffResult
  pub load_balancers : LoadBalancersDiffResult

-- An error with its text, or a value.
pub data Result {ℓ} (A : Type ℓ) : Type ℓ where
  err : String → Result A
  ok : A → Result A

-- `UnknownNodeStatus`, by the names of its entries.
pub record UnknownNodeStatus : Type 0 where
  pub unknown_kubernetes_nodes : Dict (List String)
  pub not_joined_kubernetes_nodes : Dict (List String)
  pub unknown_load_balancers_nodes : Dict (Dict (List String))

-- The parts of the manager that a reconciliation calls. A planner gives the next task, if any.
pub record Planner : Type 1 where
  pub Health : Type 0
  pub equal : ProtoEqual
  pub stage_equal : PbStage → PbStage → Bool
  pub task_equal : Task → Task → Bool
  pub to_lower : String → String
  pub health_check : Clusters → Health
  pub vpn_drift : Health → Bool
  pub check_nodes_status : Clusters → Health → Result UnknownNodeStatus
  pub pre_kubernetes_diff : Health → DiffResult → Clusters → Clusters → Option PbTaskEvent
  pub kubernetes_modifications : Health → DiffResult → Clusters → Clusters → Option PbTaskEvent
  pub post_kubernetes_diff : Health → DiffResult → Clusters → Clusters → Option PbTaskEvent
  pub kubernetes_deletions : Health → DiffResult → Clusters → Clusters → Option PbTaskEvent
  pub load_balancers_low_priority : Health → DiffResult → Clusters → Clusters → Option PbTaskEvent
  pub kubernetes_low_priority : Health → DiffResult → Clusters → Clusters → Option PbTaskEvent
  pub unknown_load_balancer_nodes :
      UnknownNodeStatus → KubernetesDiffResult → Clusters → Clusters → Result (Option PbTaskEvent)
  pub unknown_kubernetes_nodes :
      Health
      → UnknownNodeStatus
      → KubernetesDiffResult
      → Clusters
      → Clusters
      → Result (Option PbTaskEvent)
  pub schedule_delete_cluster : Clusters → PbTaskEvent
  pub schedule_create_cluster : Clusters → PbTaskEvent
  pub schedule_refresh_vpn : Bool → Clusters → PbTaskEvent
  pub schedule_refresh_infrastructure : Clusters → PbTaskEvent
  pub new_uuid : String
  pub ticks_for_refresh : ℕ

-- `typ.ReplacedDns.OldApiEndpoint != nil && Pipeline[CurrentStage].GetTerraformer() == nil`, where
-- the stage is in the pipeline.
abbrev pub is_past_terraformer : PbTaskEvent → Bool
is_past_terraformer e = elim (get_elem? e.pipeline e.current_stage) [
  | none ↦ false
  | some s ↦ elim (s.kind) [
    | unset ↦ true
    | pb_terraformer ↦ false
    | pb_ansibler ↦ true
    | pb_kube_eleven ↦ true
    | pb_kuber ↦ true
  ]
]

-- The `switch typ := update.Update.Delta`
abbrev pub cannot_roll_back : PbTaskEvent → Delta → Bool
cannot_roll_back e (api_endpoint_change _ _ _) = true
cannot_roll_back e (delete_load_balancer_roles _ _) = true
cannot_roll_back e (delete_load_balancer _ _) = true
cannot_roll_back e (tf_delete_load_balancer_nodes _ _) = true
cannot_roll_back e (deleted_load_balancer_nodes _ _ _) = true
cannot_roll_back e (k8s_api_endpoint _ _) = true
cannot_roll_back e (k_delete_nodes _) = true
cannot_roll_back e (deleted_k8s_nodes _ _) = true
cannot_roll_back e (upgrade_version _) = true
cannot_roll_back e (replaced_dns _ old) = is_some old && is_past_terraformer e
cannot_roll_back e _ = false

abbrev pub reschedules_task : PbTaskEvent → Task → Bool
reschedules_task e (Task.update _ d) = cannot_roll_back e d
reschedules_task e _ = false

-- `shouldRescheduleInFlight`
unfoldable pub should_reschedule_in_flight : List PbTaskEvent → Bool
should_reschedule_in_flight [] = false
should_reschedule_in_flight (e ∷ _) = reschedules_task e e.task

abbrev pub event_eq : PbEvent → PbEvent → Bool
event_eq unknown unknown = true
event_eq create create = true
event_eq update update = true
event_eq delete delete = true
event_eq _ _ = false

module _ (p : Planner) where
  unfoldable pub stages_equal : List PbStage → List PbStage → Bool
  stages_equal [] [] = true
  stages_equal (a ∷ as_) (b ∷ bs) = p.stage_equal a b && stages_equal as_ bs
  stages_equal _ _ = false

  -- `areScheduledTasksEqual`, of two events.
  unfoldable pub events_equal : PbTaskEvent → PbTaskEvent → Bool
  unfolding stages_equal
  events_equal a b =
      (event_eq a.event b.event && str_eq a.description b.description)
      && (stages_equal a.pipeline b.pipeline && p.task_equal a.task b.task)

  -- `areScheduledTasksEqual(lastTask, next)` for a task that was planned.
  abbrev pub is_last : List PbTaskEvent → PbTaskEvent → Bool
  is_last [] next = false
  is_last (e ∷ _) next = events_equal e next

  -- The `if next := …; next != nil { return next }` chain.
  abbrev pub or_else : Option PbTaskEvent → Option PbTaskEvent → Option PbTaskEvent
  or_else none later = later
  or_else (some e) later = some e

  -- `handleUpdate`
  unfoldable pub handle_update : p.Health → DiffResult → Clusters → Clusters → Option PbTaskEvent
  handle_update hc d cur des = or_else (p.pre_kubernetes_diff hc d cur des) (
      or_else (p.kubernetes_modifications hc d cur des) (
        or_else (p.post_kubernetes_diff hc d cur des) (
          or_else (p.kubernetes_deletions hc d cur des) (
            or_else (p.load_balancers_low_priority hc d cur des) (
              or_else (p.kubernetes_low_priority hc d cur des) (
                if p.vpn_drift hc
                then some (p.schedule_refresh_vpn d.kubernetes.proxy.current_used cur)
                else none))))))

  -- `handleClusterUnknownNodes`
  unfoldable pub handle_cluster_unknown_nodes :
      Clusters → Clusters → DiffResult → UnknownNodeStatus → p.Health → Result (Option PbTaskEvent)
  handle_cluster_unknown_nodes cur des d ns hc =
      elim (p.unknown_load_balancer_nodes ns d.kubernetes cur des) [
        | err e ↦ err e
        | ok o ↦ elim o [
          | some next ↦ ok (some next)
          | none ↦ p.unknown_kubernetes_nodes hc ns d.kubernetes cur des
        ]
      ]

  -- `Diff`; `none` is a panic, also for a cluster that is nil.
  unfoldable pub diff : Clusters → Clusters → Option DiffResult
  diff old desired = do
    o ← old.k8s
    d ← desired.k8s
    k ← kubernetes_diff p.to_lower o d
    l ← load_balancers_diff p.equal old.load_balancers desired.load_balancers
    some (record { kubernetes = k; load_balancers = l })
