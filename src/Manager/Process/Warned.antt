-- ===== src/Manager/Process/Warned.antt =====
-- ProcessTask: an error at a last stage whose errors are warnings, which ends the task.
use claudie.Prelude.{
  ◌≡◌, refl, ◌+◌, ◌<◌, ◌^◌, true, [], ◌∷◌, none, some, arith, get_elem?, length, subst, String,
  Option-cases, inl, inr, lookup,
}
use claudie.Spec.Task.{fatal}
use claudie.Store.{Store, Config, ClusterState, TaskEvent, Stage, kind_eq, Reply, error}
use claudie.Store.Convert.{Codec}
use claudie.Manager.Stages.{
  propagate_in_flight_state, advance_event, advance_to_next_stage, next_stage,
}
use claudie.Manager.Process.{
  Work, Around, commit, discard, handle, handle_from, advanced, is_for, is_warn,
  process_task_with_error, counted, errored, remembered, process_task, with_cluster, crashed,
}
use claudie.Manager.Process.Finish.{get_elem?-over}

module _ (c : Codec) (env : Around) where
  -- Behind the last stage of the only event there is nothing left.
  advance_event-ends :
      (e : TaskEvent) (cs cs' : ClusterState)
      → length e.pipeline ≡ e.current_stage + 1
      → e.current_stage + 1 < 2 ^ 32
      → advanced c env (advance_event c (next_stage c e) [] cs) ≡ commit cs'
      → cs'.in_flight ≡ []
  unfolding propagate_in_flight_state
  advance_event-ends e cs cs' last fits h =
      let over : get_elem? e.pipeline (next_stage c e).current_stage ≡ none =
        get_elem?-over e.pipeline (next_stage c e).current_stage (omega (arith, last, fits)) in
      elim (Option-cases (propagate_in_flight_state c (next_stage c e) [] cs)) [
        | inl n ↦ absurd (ground arith)
        | inr (x, n) ↦ ground arith
      ]

  handle_from-ends :
      (w : Work) (e : TaskEvent) (stage : Stage) (d : String) (cs cs' : ClusterState)
      → cs.in_flight ≡ e ∷ []
      → is_for c env w e ≡ true
      → get_elem? e.pipeline e.current_stage ≡ some stage
      → kind_eq stage.kind w.stage ≡ true
      → is_warn c env stage.description.error_level ≡ true
      → w.result.error ≡ some (fatal, d)
      → length e.pipeline ≡ e.current_stage + 1
      → e.current_stage + 1 < 2 ^ 32
      → handle_from c env w cs (e ∷ []) ≡ commit cs'
      → cs'.in_flight ≡ []
  unfolding process_task_with_error advance_to_next_stage
  handle_from-ends w e stage d cs cs' now meant at kind warn reported last fits h =
      elim (Option-cases (counted c env cs)) [
        | inl n ↦ absurd (ground arith)
        | inr (m, n) ↦
            advance_event-ends e (errored c env d m (remembered c env error stage cs)) cs' last fits
              (ground arith)
      ]

  -- When the message reports a fatal error for the only event of the chain, at the last stage of its
  -- pipeline, whose errors are warnings, and the cluster is written back, then the service panics
  -- behind the write: the store is the one that the update left, the cluster that was written has no
  -- event left, and the same message is dropped when it is delivered again.
  pub process_task_panics :
      (st : Store) (db db' : st.Db) (w : Work) (im im' : Config) (e : TaskEvent) (stage : Stage)
      (d : String) (cs cs' : ClusterState)
      → st.get_config db w.input_manifest ≡ Reply.ok im
      → lookup w.cluster im.clusters ≡ some cs
      → cs.in_flight ≡ e ∷ []
      → is_for c env w e ≡ true
      → get_elem? e.pipeline e.current_stage ≡ some stage
      → kind_eq stage.kind w.stage ≡ true
      → is_warn c env stage.description.error_level ≡ true
      → w.result.error ≡ some (fatal, d)
      → length e.pipeline ≡ e.current_stage + 1
      → e.current_stage + 1 < 2 ^ 32
      → handle c env w cs ≡ commit cs'
      → st.update_config db (with_cluster st c env w.cluster cs' im) ≡ (db', Reply.ok im')
      → (process_task st c env db w ≡ (db', crashed))
        × (cs'.in_flight ≡ [])
        × (handle c env w cs' ≡ discard)
  unfolding process_task handle
  process_task_panics st db db' w im im' e stage d cs cs' got found now meant at kind warn reported
        last fits h saved =
      let gone : cs'.in_flight ≡ [] =
        handle_from-ends w e stage d cs cs' now meant at kind warn reported last fits
          (subst (λ es. handle_from c env w cs es ≡ commit cs') now h) in
      (rw (process_task, got, found, h, saved, reported, gone) refl, gone, rw gone refl)
