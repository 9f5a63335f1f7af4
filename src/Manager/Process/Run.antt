-- ===== src/Manager/Process/Run.antt =====
-- A task under way: one message after another, each for the stage that the task is at.
pub mod Ready
pub mod Ends
use claudie.Prelude.{◌≡◌, List, [], ◌∷◌, Option, none, some, String, get_elem?}
use claudie.Spec.Task.{Outcome}
use claudie.Store.{ClusterState, TaskEvent, Stage}
use claudie.Store.Convert.{Codec}
use claudie.Manager.Process.{Work, Around, Decision, commit, handle}

-- The message that reports success and `o` for the stage that the event is at.
abbrev pub work_at : TaskEvent → Stage → Outcome → Work
work_at e stage o = record {
  input_manifest = "";
  cluster = "";
  task_id = e.id;
  task_stage = e.current_stage;
  stage = stage.kind;
  result = record { error = none; result = o };
}

-- The message for the head of the chain; `none` where there is no stage to report of.
abbrev pub next_work : List TaskEvent → Outcome → Option Work
next_work [] o = none
next_work (e ∷ _) o = elim (get_elem? e.pipeline e.current_stage) [
  | none ↦ none
  | some stage ↦ some (work_at e stage o)
]

abbrev pub committed : Decision → Option ClusterState
committed (commit cs) = some cs
committed _ = none

module _ (c : Codec) (env : Around) where
  abbrev pub deliver : ClusterState → Outcome → Option ClusterState
  deliver cs o = elim (next_work cs.in_flight o) [
    | none ↦ none
    | some w ↦ committed (handle c env w cs)
  ]

  -- The messages in their order, as long as each is written back.
  unfoldable pub run : List Outcome → ClusterState → Option ClusterState
  run [] cs = some cs
  run (o ∷ os) cs = elim (deliver cs o) [ none ↦ none | some cs' ↦ run os cs' ]
