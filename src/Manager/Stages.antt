-- ===== src/Manager/Stages.antt =====
-- services/manager/internal/service/process_task.go: how the in-flight task of a cluster takes up
-- a result and moves on: propagateResult, propagateInFlightState and advanceToNextStage.
use claudie.Prelude.{◌+◌, ◌%◌, ◌^◌, List, [], ◌∷◌, Option, none, some, get_elem?}
use claudie.Spec.{Clusters}
use claudie.Spec.Task.{Task, Outcome, none_result, update_result, clear_result}
use claudie.Spec.Clear.{Consumed, consume_clear_result, mutable_clusters, replace_clusters}
use claudie.Spec.Update.{consume_update_result, map_consumed}
use claudie.Store.{ClusterState, TaskEvent, done, wait_for_pickup}
use claudie.Store.Convert.{
  Codec, PbTaskEvent, convert_to_grpc_task_event, convert_from_grpc_task_event,
  convert_from_grpc_clusters, ◌>>=◌,
}
use claudie.Manager.Counters.{populate_task_success_counters}

-- A step that changes the state, returns an error with the state as changed until then, or panics.
pub data Attempt {ℓ} (A : Type ℓ) : Type ℓ where
  ok : A → Attempt A
  failed : A → Attempt A
  panics : Attempt A

-- The `switch result := result.Result`
unfoldable pub consume_outcome : Outcome → Task → Consumed Task
unfolding consume_update_result consume_clear_result
consume_outcome (update_result u) t = consume_update_result u t
consume_outcome (clear_result c) t = consume_clear_result c t
consume_outcome Outcome.unset t = Consumed.ok t
consume_outcome none_result t = Consumed.ok t

-- The same for `inFlight.Task`, where a nil `inFlight` is dereferenced.
unfoldable pub consume_head : Outcome → List PbTaskEvent → Consumed (List PbTaskEvent)
unfolding consume_outcome
consume_head o (e ∷ rest) =
    map_consumed (λ t. record e { task = t } ∷ rest) (consume_outcome o e.task)
consume_head (update_result u) [] = Consumed.panics
consume_head (clear_result c) [] = Consumed.panics
consume_head Outcome.unset [] = Consumed.ok []
consume_head none_result [] = Consumed.ok []

module _ (c : Codec) where
  -- The write back: on an error `cluster.InFlight` is nil.
  abbrev pub write_back : ClusterState → Consumed (List PbTaskEvent) → Attempt ClusterState
  write_back cs (Consumed.ok es) = elim (convert_from_grpc_task_event c es) [
    | none ↦ failed (record cs { in_flight = [] })
    | some db ↦ ok (record cs { in_flight = db })
  ]
  write_back cs (Consumed.refused _ _) = failed cs
  write_back cs Consumed.panics = panics

  -- `propagateResult`
  unfoldable pub propagate_result : Outcome → ClusterState → Attempt ClusterState
  unfolding consume_head
  propagate_result o cs = elim (convert_to_grpc_task_event c cs.in_flight) [
    | none ↦ failed cs
    | some es ↦ write_back cs (consume_head o es)
  ]

  -- Where the state of a finished task goes: into the task of a lower priority that waits behind
  -- it, or else into the current state.
  abbrev pub hand_over :
      Clusters → Task → TaskEvent → List TaskEvent → ClusterState → Option ClusterState
  hand_over s t e [] cs = do
    current ← convert_from_grpc_clusters c s
    some (record cs {
      current = current;
      in_flight = e ∷ [];
      scale_up_failed = populate_task_success_counters t cs.scale_up_failed;
    })
  hand_over s t e (l ∷ ls) cs = do
    lower ← c.unmarshal_task l.task
    changed ← c.marshal_task (replace_clusters s lower)
    some (record cs {
      in_flight = e ∷ record l { task = changed } ∷ ls;
      scale_up_failed = populate_task_success_counters t cs.scale_up_failed;
    })

  -- `propagateInFlightState`, for the in-flight event `e` and those behind it.
  unfoldable pub propagate_in_flight_state :
      TaskEvent → List TaskEvent → ClusterState → Option ClusterState
  unfolding mutable_clusters
  propagate_in_flight_state e rest cs = do
    t ← c.unmarshal_task e.task
    s ← mutable_clusters t
    hand_over s t e rest cs

  -- `state.InFlight.LowerPriority`
  abbrev pub lower_priority : List TaskEvent → List TaskEvent
  lower_priority [] = []
  lower_priority (_ ∷ rest) = rest

  abbrev pub finish : ClusterState → ClusterState
  finish cs = record cs {
    in_flight = lower_priority cs.in_flight;
    state = record (cs.state) { status = done; description = "" };
  }

  -- `state.InFlight.CurrentStage += 1` on a uint32.
  abbrev pub next_stage : TaskEvent → TaskEvent
  next_stage e = record e { current_stage = (e.current_stage + 1) % 2 ^ 32 }

  -- `advanceToNextStage`, by whether the pipeline has a stage at the raised index.
  abbrev pub advance_event : TaskEvent → List TaskEvent → ClusterState → Attempt ClusterState
  advance_event e rest cs = elim (get_elem? e.pipeline e.current_stage) [
    | some stage ↦ ok (record cs {
      in_flight = e ∷ rest;
      state = record (cs.state) { status = wait_for_pickup; description = stage.description.about };
    })
    | none ↦ elim (propagate_in_flight_state e rest cs) [
      | none ↦ failed cs
      | some cs' ↦ ok (finish cs')
    ]
  ]

  abbrev pub advance_from : List TaskEvent → ClusterState → Attempt ClusterState
  advance_from [] cs = panics
  advance_from (e ∷ rest) cs = advance_event (next_stage e) rest cs

  unfoldable pub advance_to_next_stage : ClusterState → Attempt ClusterState
  unfolding propagate_in_flight_state
  advance_to_next_stage cs = advance_from cs.in_flight cs
