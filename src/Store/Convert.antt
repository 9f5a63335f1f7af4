-- ===== src/Store/Convert.antt =====
-- services/manager/internal/store/convert_db_grpc.go: task events and clusters, between the
-- database and gRPC. Protobuf's Marshal and Unmarshal, and the parsing and printing of RFC 3339
-- times, are parameters.
use claudie.Prelude.{ℕ, List, [], ◌∷◌, Option, none, some, String}
use claudie.Spec.{K8sCluster, LbCluster, Clusters}
use claudie.Spec.Task.{Task}
use claudie.Store.{
  Bytes, DbClusters, TaskEvent, EventName, event_unknown, event_create, event_update, event_delete,
  other_event,
}
use claudie.Store.Stages.{
  PbStage, EnumNames, convert_to_grpc_stages, convert_from_grpc_stages, all_or_none,
}

pub data PbEvent : Type 0 where
  unknown create update delete : PbEvent

-- `timestamppb.Timestamp`, of a time from 1970 on.
pub record PbTime : Type 0 where
  pub seconds : ℕ
  pub nanos : ℕ

pub record PbTaskEvent : Type 0 where
  pub id : String
  pub timestamp : PbTime
  pub event : PbEvent
  pub task : Task
  pub description : String
  pub pipeline : List PbStage
  pub current_stage : ℕ

-- Marshal and Unmarshal at the messages that the manager stores, and `Format` and `Parse` of times
-- by the layout RFC3339; `none` is an error.
pub record Codec : Type 0 where
  pub marshal_task : Task → Option Bytes
  pub unmarshal_task : Bytes → Option Task
  pub marshal_k8s : Option K8sCluster → Option Bytes
  pub unmarshal_k8s : Bytes → Option K8sCluster
  pub marshal_lbs : List LbCluster → Option Bytes
  pub unmarshal_lbs : Bytes → Option (List LbCluster)
  pub format_time : PbTime → String
  pub parse_time : String → Option PbTime
  pub names : EnumNames

infixl 5 ◌>>=◌
abbrev pub ◌>>=◌ {ℓ κ} : {A : Type ℓ} {B : Type κ} → Option A → (A → Option B) → Option B
none >>= f = none
some a >>= f = f a

-- `spec.Event_value`, 0 for a name it lacks.
abbrev pub event_value : EventName → PbEvent
event_value event_unknown = unknown
event_value event_create = create
event_value event_update = update
event_value event_delete = delete
event_value (other_event _) = unknown

-- `Event.String`
abbrev pub event_name : PbEvent → EventName
event_name unknown = event_unknown
event_name create = event_create
event_name update = event_update
event_name delete = event_delete

module _ (c : Codec) where
  -- One event of `ConvertToGRPCTaskEvent`, without the events of a lower priority.
  abbrev pub event_to_grpc : TaskEvent → Option PbTaskEvent
  event_to_grpc te = do
    task ← c.unmarshal_task te.task
    t ← c.parse_time te.timestamp
    pipeline ← convert_to_grpc_stages c.names te.pipeline
    some (record {
      id = te.id;
      timestamp = t;
      event = event_value te.type;
      task = task;
      description = te.description;
      pipeline = pipeline;
      current_stage = te.current_stage;
    })

  -- One event of `ConvertFromGRPCTaskEvent`.
  abbrev pub event_from_grpc : PbTaskEvent → Option TaskEvent
  event_from_grpc te = do
    task ← c.marshal_task te.task
    pipeline ← convert_from_grpc_stages c.names te.pipeline
    some (record {
      id = te.id;
      timestamp = c.format_time te.timestamp;
      type = event_name te.event;
      task = task;
      description = te.description;
      pipeline = pipeline;
      current_stage = te.current_stage;
    })

  -- `ConvertToGRPCTaskEvent`: the event and those of a lower priority, or nil.
  unfoldable pub convert_to_grpc_task_event : List TaskEvent → Option (List PbTaskEvent)
  convert_to_grpc_task_event = all_or_none event_to_grpc

  -- `ConvertFromGRPCTaskEvent`
  unfoldable pub convert_from_grpc_task_event : List PbTaskEvent → Option (List TaskEvent)
  convert_from_grpc_task_event = all_or_none event_from_grpc

  -- `ConvertFromGRPCClusters`
  unfoldable pub convert_from_grpc_clusters : Clusters → Option DbClusters
  convert_from_grpc_clusters cs = do
    k8s ← c.marshal_k8s cs.k8s
    lbs ← c.marshal_lbs cs.load_balancers
    some (record { k8s = k8s; load_balancers = lbs })

  abbrev pub lbs_to_grpc : Bytes → Option (List LbCluster)
  lbs_to_grpc [] = some []
  lbs_to_grpc (b ∷ bs) = c.unmarshal_lbs (b ∷ bs)

  -- `ConvertToGRPCClusters`, by the bytes of the kubernetes cluster.
  abbrev pub clusters_to_grpc : Bytes → Bytes → Option Clusters
  clusters_to_grpc [] lbs = some (record { k8s = none; load_balancers = [] })
  clusters_to_grpc (b ∷ bs) lbs = do
    k ← c.unmarshal_k8s (b ∷ bs)
    l ← lbs_to_grpc lbs
    some (record { k8s = some k; load_balancers = l })

  unfoldable pub convert_to_grpc_clusters : DbClusters → Option Clusters
  convert_to_grpc_clusters d = clusters_to_grpc d.k8s d.load_balancers
