-- ===== src/Store.antt =====
-- services/manager/internal/store/api.go: the documents of the database and what the manager may
-- ask of it. Documents are values: a read gives a copy. A sequence of events, each of a lower
-- priority than the one before it, stands for the chain of `LowerPriority` pointers; the empty
-- one for nil.
pub mod Locking
pub mod Mongo
pub mod Convert
pub mod Stages
pub mod RoundTrip
pub mod States
use claudie.Prelude.{
  ℕ, Bool, true, false, ◌&&◌, List, [], ◌∷◌, Option, none, some, String, Dict, str_eq,
}
use claudie.Manifest.{StateName}

abbrev pub Bytes : Type 0
Bytes = List ℕ

-- `StageKind`, a string.
pub data StageKind : Type 0 where
  unknown terraformer ansibler kube_eleven kuber : StageKind
  other : String → StageKind

abbrev pub kind_eq : StageKind → StageKind → Bool
kind_eq unknown unknown = true
kind_eq terraformer terraformer = true
kind_eq ansibler ansibler = true
kind_eq kube_eleven kube_eleven = true
kind_eq kuber kuber = true
kind_eq (other s) (other t) = str_eq s t
kind_eq _ _ = false

-- The names of `spec.ErrorLevel`, a string.
pub data ErrorLevel : Type 0 where
  error_fatal error_warn : ErrorLevel
  other_level : String → ErrorLevel

pub record StageDescription : Type 0 where
  pub about : String
  pub error_level : ErrorLevel

pub record SubPass : Type 0 where
  pub kind : String
  pub description : StageDescription

pub record Stage : Type 0 where
  pub kind : StageKind
  pub description : StageDescription
  pub sub_passes : List SubPass

-- The names of `spec.Event`, a string.
pub data EventName : Type 0 where
  event_unknown event_create event_update event_delete : EventName
  other_event : String → EventName

pub record TaskEvent : Type 0 where
  pub id : String
  pub timestamp : String
  pub type : EventName
  pub task : Bytes
  pub description : String
  pub pipeline : List Stage
  pub current_stage : ℕ

-- The names of `spec.Workflow_Status`, a string.
pub data Status : Type 0 where
  done error in_progress wait_for_pickup : Status
  other_status : String → Status

pub record FinishedWorkflow : Type 0 where
  pub status : Status
  pub stage : StageKind
  pub task_description : String
  pub timestamp : String

pub record Workflow : Type 0 where
  pub status : Status
  pub description : String
  pub timestamp : String
  pub previous : List FinishedWorkflow
  pub ticks_until_refresh : ℕ

pub record DbClusters : Type 0 where
  pub k8s : Bytes
  pub load_balancers : Bytes

pub record ClusterState : Type 0 where
  pub current : DbClusters
  pub in_flight : List TaskEvent
  pub state : Workflow
  pub scale_up_failed : Dict ℕ

pub record Manifest : Type 0 where
  pub raw : String
  pub checksum : Option Bytes
  pub last_applied_checksum : Option Bytes
  pub state : StateName
  pub state_timestamp : String

pub record Config : Type 0 where
  pub version : ℕ
  pub name : String
  pub context_name : String
  pub context_namespace : String
  pub manifest : Manifest
  pub clusters : Dict ClusterState

-- What an operation of the store answers: `missing` is ErrNotFoundOrDirty, `broken` another error.
pub data Reply {ℓ} (A : Type ℓ) : Type ℓ where
  ok : A → Reply A
  missing broken : Reply A

-- The operations of `Store` that the manager's loops use. An update gives the document as the
-- store now has it, with its version raised.
pub record Store : Type 1 where
  pub Db : Type 0
  pub get_config : Db → String → Reply Config
  pub list_configs : Db → List StateName → Reply (List Config)
  pub update_config : Db → Config → Db × Reply Config
  pub delete_config : Db → String → ℕ → Db × Reply (Unit {0})
