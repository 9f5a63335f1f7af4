-- ===== src/Manager/Process.antt =====
-- services/manager/internal/service/process_task.go: ProcessTask and processTaskWithError, the
-- handling of a message from the work queue. Logging and metrics are left out, but for the panic
-- of the metrics; the time and the new id of a rescheduled task are arguments.
pub mod Stale
pub mod History
pub mod Again
pub mod Marks
pub mod Finish
pub mod Errored
pub mod Warned
pub mod Run
use claudie.Prelude.{
  ℕ, ◌==◌, Bool, true, false, not, ◌&&◌, List, [], ◌∷◌, ◌++◌, Option, none, some, String, Dict,
  lookup, insert, length, get_elem?, leb, str_eq, if◌then◌else◌,
}
use claudie.Spec.Task.{TaskResult, ErrorKind, fatal, partial_error}
use claudie.Store.{
  Store, Config, ClusterState, TaskEvent, Stage, StageKind, kind_eq, Status, done, error,
  in_progress, wait_for_pickup, FinishedWorkflow, Workflow, Reply, missing, broken, ErrorLevel,
  error_warn,
}
use claudie.Store.Convert.{Codec, convert_to_grpc_task_event}
use claudie.Manager.Counters.{populate_task_error_counters}
use claudie.Manager.Stages.{Attempt, ok, failed, panics, propagate_result, advance_to_next_stage}

pub record Work : Type 0 where
  pub input_manifest : String
  pub cluster : String
  pub task_id : String
  pub task_stage : ℕ
  pub stage : StageKind
  pub result : TaskResult

-- What a call finds around it: the time, a new uuid, and TicksForInfrastructureRefresh.
pub record Around : Type 0 where
  pub now : String
  pub new_uuid : String
  pub ticks : ℕ

-- What is done with a message: dropped and acknowledged, or the cluster is written and the message
-- acknowledged if that works, or it is not acknowledged, or the service panics.
pub data Decision : Type 0 where
  discard halt crash : Decision
  commit : ClusterState → Decision

abbrev pub previously_cached_workflow_results : ℕ
previously_cached_workflow_results = 3

-- `Previous[1:]` of a full list, and the new entry behind.
abbrev pub drop_oldest : List FinishedWorkflow → List FinishedWorkflow
drop_oldest [] = []
drop_oldest (_ ∷ ws) = ws

unfoldable pub remember : FinishedWorkflow → List FinishedWorkflow → List FinishedWorkflow
remember w ws =
    (if leb previously_cached_workflow_results (length ws) then drop_oldest ws else ws) ++ w ∷ []

-- The stage that the in-flight event is at; `none` is an index out of range or a nil event.
abbrev pub stage_at : List TaskEvent → Option Stage
stage_at [] = none
stage_at (e ∷ _) = get_elem? e.pipeline e.current_stage

module _ (c : Codec) (env : Around) where
  -- The in-flight task under a new id, waiting to be picked up.
  abbrev pub rescheduled : TaskEvent → List TaskEvent → ClusterState → ClusterState
  rescheduled e rest cs = record cs {
    in_flight = record e { id = env.new_uuid } ∷ rest;
    state = record {
      status = wait_for_pickup;
      description = "";
      timestamp = "";
      previous = cs.state.previous;
      ticks_until_refresh = env.ticks;
    };
  }

  abbrev pub reschedule_from : List TaskEvent → ClusterState → Decision
  reschedule_from [] cs = crash
  reschedule_from (e ∷ rest) cs = commit (rescheduled e rest cs)

  abbrev pub remembered : Status → Stage → ClusterState → ClusterState
  remembered status stage cs = record cs {
    state = record (cs.state) {
      previous =
          remember
            (record {
              status = status;
              stage = stage.kind;
              task_description = cs.state.description;
              timestamp = env.now;
            })
            cs.state.previous;
    };
  }

  abbrev pub advanced : Attempt ClusterState → Decision
  advanced (ok cs) = commit cs
  advanced (failed _) = halt
  advanced panics = crash

  -- "About to advance a successful task."
  abbrev pub after_success : Attempt ClusterState → Decision
  after_success (ok cs) = elim (stage_at cs.in_flight) [
    | none ↦ crash
    | some stage ↦ advanced (advance_to_next_stage c (remembered done stage cs))
  ]
  after_success (failed cs) = reschedule_from cs.in_flight cs
  after_success panics = crash

  abbrev pub is_error : Status → Bool
  is_error error = true
  is_error _ = false

  -- The counters, "only on tasks that are about to be set to Errored"; `none` is a panic.
  unfoldable pub counted : ClusterState → Option (Dict ℕ)
  counted cs = elim (is_error cs.state.status) [
    | true ↦ some cs.scale_up_failed
    | false ↦ elim (convert_to_grpc_task_event c cs.in_flight) [
      | none ↦ some cs.scale_up_failed
      | some es ↦ elim es [
        | [] ↦ none
        | e ∷ _ ↦ populate_task_error_counters e.task cs.scale_up_failed
      ]
    ]
  ]

  abbrev pub errored : String → Dict ℕ → ClusterState → ClusterState
  errored description counters cs = record cs {
    state = record (cs.state) { status = error; description = description };
    scale_up_failed = counters;
  }

  abbrev pub is_warn : ErrorLevel → Bool
  is_warn error_warn = true
  is_warn _ = false

  -- "if isStageWarn"
  abbrev pub after_error : Bool → Attempt ClusterState → Decision
  after_error warn (ok cs) = if warn then advanced (advance_to_next_stage c cs) else commit cs
  after_error warn (failed cs) = reschedule_from cs.in_flight cs
  after_error warn panics = crash

  -- `isErrorPartial`
  abbrev pub is_partial : ErrorKind → Bool
  is_partial fatal = false
  is_partial partial_error = true

  -- `processTaskWithError`, up to the write of the document.
  unfoldable pub process_task_with_error :
      Work → Stage → ErrorKind → String → ClusterState → Decision
  unfolding counted
  process_task_with_error w stage kind description cs = elim (counted cs) [
    | none ↦ crash
    | some counters ↦
        let cs' = errored description counters (remembered error stage cs) in
        after_error (is_warn stage.description.error_level)
          (if is_partial kind then propagate_result c w.result.result cs' else ok cs')
  ]

  -- Whether the message is for the task and the stage that the cluster is at.
  abbrev pub is_for : Work → TaskEvent → Bool
  is_for w e = str_eq e.id w.task_id && e.current_stage == w.task_stage

  abbrev pub at_stage : Work → ClusterState → Stage → Decision
  at_stage w cs stage = if not (kind_eq stage.kind w.stage) then discard else elim w.result.error [
    | none ↦ after_success (propagate_result c w.result.result cs)
    | some (kind, description) ↦ process_task_with_error w stage kind description cs
  ]

  abbrev pub handle_from : Work → ClusterState → List TaskEvent → Decision
  handle_from w cs [] = discard
  handle_from w cs (e ∷ rest) =
      if not (is_for w e) then discard else elim (get_elem? e.pipeline e.current_stage) [
        | none ↦ crash
        | some stage ↦ at_stage w cs stage
      ]

  -- `ProcessTask`, once the cluster is found, up to the write of the document.
  unfoldable pub handle : Work → ClusterState → Decision
  unfolding process_task_with_error
  handle w cs = handle_from w cs cs.in_flight

-- Whether the message is acknowledged; a panic leaves it for a later delivery.
pub data Verdict : Type 0 where
  ack nak crashed : Verdict

-- The metrics behind a write read the type of the in-flight task when the message reports an error,
-- and a nil one panics.
abbrev pub after_write : Option (ErrorKind × String) → List TaskEvent → Verdict
after_write none es = ack
after_write (some _) [] = crashed
after_write (some _) (_ ∷ _) = ack

module _ (st : Store) (c : Codec) (env : Around) where
  abbrev pub with_cluster : String → ClusterState → Config → Config
  with_cluster name cs im = record im { clusters = insert name cs im.clusters }

  abbrev pub carry_out : st.Db → Work → Config → Decision → st.Db × Verdict
  carry_out db w im discard = (db, ack)
  carry_out db w im halt = (db, nak)
  carry_out db w im crash = (db, crashed)
  carry_out db w im (commit cs) =
      let (db', reply) = st.update_config db (with_cluster w.cluster cs im) in
      (
        db',
        elim reply [
          | Reply.ok _ ↦ after_write w.result.error cs.in_flight
          | missing ↦ nak
          | broken ↦ nak
        ],
      )

  -- `ProcessTask`
  unfoldable pub process_task : st.Db → Work → st.Db × Verdict
  unfolding handle
  process_task db w = elim (st.get_config db w.input_manifest) [
    | broken ↦ (db, nak)
    | missing ↦ (db, ack)
    | Reply.ok im ↦ elim (lookup w.cluster im.clusters) [
      | none ↦ (db, ack)
      | some cs ↦ carry_out db w im (handle c env w cs)
    ]
  ]
