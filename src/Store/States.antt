-- ===== src/Store/States.antt =====
-- services/manager/internal/store/convert_db_grpc.go: workflows, clusters and documents, between the
-- database and gRPC. A nil time is written as the time 0; the time of a workflow is that of the call.
use claudie.Prelude.{ℕ, List, [], ◌∷◌, Option, none, some, String, Dict, map}
use claudie.Manifest.{State, StateName, known, unrecognized, pending}
use claudie.Spec.{Clusters}
use claudie.Store.{
  Bytes, StageKind, Status, done, error, in_progress, wait_for_pickup, other_status,
  FinishedWorkflow, Workflow, ClusterState, Config,
}
use claudie.Store.Convert.{
  Codec, PbTime, PbTaskEvent, convert_to_grpc_task_event, convert_from_grpc_task_event,
  convert_to_grpc_clusters, convert_from_grpc_clusters, ◌>>=◌,
}

pub data PbStatus : Type 0 where
  pb_done pb_error pb_in_progress pb_wait_for_pickup : PbStatus

pub record PbFinishedWorkflow : Type 0 where
  pub status : PbStatus
  pub stage : StageKind
  pub task_description : String
  pub timestamp : Option PbTime

pub record PbWorkflow : Type 0 where
  pub status : PbStatus
  pub description : String
  pub previous : List PbFinishedWorkflow
  pub ticks_until_refresh : ℕ

-- `spec.ClusterState`. A nil `Current` is the one without clusters, and a nil `State` the one
-- without a previous run: only the entries of new clusters have it, and nothing else is read of it.
pub record PbClusterState : Type 0 where
  pub current : Clusters
  pub state : PbWorkflow
  pub in_flight : List PbTaskEvent
  pub scale_up_failed : Dict ℕ

pub record PbManifest : Type 0 where
  pub raw : String
  pub checksum : Option Bytes
  pub last_applied_checksum : Option Bytes
  pub state : State
  pub state_timestamp : Option PbTime

pub record PbConfig : Type 0 where
  pub version : ℕ
  pub name : String
  pub context_name : String
  pub context_namespace : String
  pub manifest : PbManifest
  pub clusters : Dict PbClusterState

-- `spec.Workflow_Status_value`, 0 for a name it lacks.
abbrev pub status_value : Status → PbStatus
status_value done = pb_done
status_value error = pb_error
status_value in_progress = pb_in_progress
status_value wait_for_pickup = pb_wait_for_pickup
status_value (other_status _) = pb_done

-- `Workflow_Status.String`
abbrev pub status_name : PbStatus → Status
status_name pb_done = done
status_name pb_error = error
status_name pb_in_progress = in_progress
status_name pb_wait_for_pickup = wait_for_pickup

-- `spec.Manifest_State_value`, 0 for a name it lacks.
abbrev pub state_value : StateName → State
state_value (known s) = s
state_value (unrecognized _) = pending

-- An entry that is converted, or an error that ends the loop over the clusters.
unfoldable pub convert_all {ℓ} : {A B : Type ℓ} → (A → Option B) → Dict A → Option (Dict B)
convert_all f [] = some []
convert_all f ((k, a) ∷ entries) = elim (f a) [
  | none ↦ none
  | some b ↦ elim (convert_all f entries) [ none ↦ none | some bs ↦ some ((k, b) ∷ bs) ]
]

module _ (c : Codec) where
  abbrev pub time_of : Option PbTime → String
  time_of none = c.format_time (record { seconds = 0; nanos = 0 })
  time_of (some t) = c.format_time t

  abbrev pub finished_to_grpc : FinishedWorkflow → PbFinishedWorkflow
  finished_to_grpc p = record {
    status = status_value p.status;
    stage = p.stage;
    task_description = p.task_description;
    timestamp = c.parse_time p.timestamp;
  }

  abbrev pub finished_from_grpc : PbFinishedWorkflow → FinishedWorkflow
  finished_from_grpc p = record {
    status = status_name p.status;
    stage = p.stage;
    task_description = p.task_description;
    timestamp = time_of p.timestamp;
  }

  -- `ConvertToGRPCWorkflow`
  unfoldable pub convert_to_grpc_workflow : Workflow → PbWorkflow
  convert_to_grpc_workflow w = record {
    status = status_value w.status;
    description = w.description;
    previous = map finished_to_grpc w.previous;
    ticks_until_refresh = w.ticks_until_refresh;
  }

  -- `ConvertFromGRPCWorkflow`
  unfoldable pub convert_from_grpc_workflow : String → PbWorkflow → Workflow
  convert_from_grpc_workflow now w = record {
    status = status_name w.status;
    description = w.description;
    timestamp = now;
    previous = map finished_from_grpc w.previous;
    ticks_until_refresh = w.ticks_until_refresh;
  }

  -- `ConvertToGRPCClusterState`
  unfoldable pub convert_to_grpc_cluster_state : ClusterState → Option PbClusterState
  unfolding convert_to_grpc_workflow
  convert_to_grpc_cluster_state cs = do
    es ← convert_to_grpc_task_event c cs.in_flight
    current ← convert_to_grpc_clusters c cs.current
    some (record {
      current = current;
      state = convert_to_grpc_workflow cs.state;
      in_flight = es;
      scale_up_failed = cs.scale_up_failed;
    })

  -- `ConvertFromGRPCClusterState`
  unfoldable pub convert_from_grpc_cluster_state : String → PbClusterState → Option ClusterState
  unfolding convert_from_grpc_workflow
  convert_from_grpc_cluster_state now cs = do
    current ← convert_from_grpc_clusters c cs.current
    es ← convert_from_grpc_task_event c cs.in_flight
    some (record {
      current = current;
      in_flight = es;
      state = convert_from_grpc_workflow now cs.state;
      scale_up_failed = cs.scale_up_failed;
    })

  -- `ConvertToGRPC`
  unfoldable pub convert_to_grpc : Config → Option PbConfig
  unfolding convert_all convert_to_grpc_cluster_state
  convert_to_grpc cfg = do
    clusters ← convert_all convert_to_grpc_cluster_state cfg.clusters
    some (record {
      version = cfg.version;
      name = cfg.name;
      context_name = cfg.context_name;
      context_namespace = cfg.context_namespace;
      manifest = record {
        raw = cfg.manifest.raw;
        checksum = cfg.manifest.checksum;
        last_applied_checksum = cfg.manifest.last_applied_checksum;
        state = state_value cfg.manifest.state;
        state_timestamp = c.parse_time cfg.manifest.state_timestamp;
      };
      clusters = clusters;
    })

  -- `ConvertFromGRPC`
  unfoldable pub convert_from_grpc : String → PbConfig → Option Config
  unfolding convert_all convert_from_grpc_cluster_state
  convert_from_grpc now cfg = do
    clusters ← convert_all (convert_from_grpc_cluster_state now) cfg.clusters
    some (record {
      version = cfg.version;
      name = cfg.name;
      context_name = cfg.context_name;
      context_namespace = cfg.context_namespace;
      manifest = record {
        raw = cfg.manifest.raw;
        checksum = cfg.manifest.checksum;
        last_applied_checksum = cfg.manifest.last_applied_checksum;
        state = known cfg.manifest.state;
        state_timestamp = time_of cfg.manifest.state_timestamp;
      };
      clusters = clusters;
    })
