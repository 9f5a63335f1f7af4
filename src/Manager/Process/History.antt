-- ===== src/Manager/Process/History.antt =====
-- ProcessTask: the results that a cluster remembers.
use claudie.Prelude.{
  ◌≡◌, ◌≤◌, Bool, true, false, List, [], ◌∷◌, some, arith, ap, length, length-append, leb,
  Bool-cases, Option-cases, inl, inr, get_elem?, sym, String, if◌then◌else◌, subst,
}
use claudie.Spec.{Clusters}
use claudie.Spec.Task.{Task, Outcome, ErrorKind, fatal, partial_error}
use claudie.Spec.Clear.{Consumed}
use claudie.Store.{ClusterState, TaskEvent, Stage, FinishedWorkflow, kind_eq}
use claudie.Store.Convert.{
  Codec, PbTaskEvent, convert_to_grpc_task_event, convert_from_grpc_task_event,
}
use claudie.Manager.Stages.{
  Attempt, ok, failed, panics, write_back, propagate_result, hand_over, propagate_in_flight_state,
  advance_event, advance_from, advance_to_next_stage, consume_head, next_stage,
}
use claudie.Manager.Process.{
  Work, Around, Decision, commit, remember, handle, handle_from, at_stage, after_success,
  after_error, advanced, reschedule_from, counted, process_task_with_error, is_partial, stage_at,
  is_for,
}

-- A commit leaves a short memory, and the other decisions write nothing.
abbrev pub Short : List FinishedWorkflow → Type 0
Short ws = length ws ≤ 3

abbrev pub Commits : (ClusterState → Type 0) → Decision → Type 0
Commits P (commit cs) = P cs
Commits P _ = Unit

-- An attempt leaves a state of which `P` holds.
abbrev pub Leaves : (ClusterState → Type 0) → Attempt ClusterState → Type 0
Leaves P (ok cs) = P cs
Leaves P (failed cs) = P cs
Leaves P panics = Unit

pub remember-Short :
    (w : FinishedWorkflow) (ws : List FinishedWorkflow) → Short ws → Short (remember w ws)
unfolding remember
remember-Short w [] h = omega arith
remember-Short w (x ∷ ws) h = elim (Bool-cases (leb 3 (length (x ∷ ws)))) [
  | inl full ↦ rw (remember, full, length-append ws (w ∷ [])) (ground arith)
  | inr room ↦ rw (remember, room, length-append (x ∷ ws) (w ∷ [])) (ground arith)
]

abbrev pub ShortState : ClusterState → Type 0
ShortState cs = Short cs.state.previous

module _ (c : Codec) where
  write_back-Short :
      (cs : ClusterState) (r : Consumed (List PbTaskEvent))
      → ShortState cs
      → Leaves ShortState (write_back c cs r)
  write_back-Short cs (Consumed.ok es) h = elim (Option-cases (convert_from_grpc_task_event c es)) [
    | inl e ↦ rw (e, write_back) h
    | inr (db, e) ↦ rw (e, write_back) h
  ]
  write_back-Short cs (Consumed.refused _ _) h = h
  write_back-Short cs Consumed.panics h = tt

  pub propagate_result-Short :
      (o : Outcome) (cs : ClusterState)
      → ShortState cs
      → Leaves ShortState (propagate_result c o cs)
  unfolding propagate_result
  propagate_result-Short o cs h = elim (Option-cases (convert_to_grpc_task_event c cs.in_flight)) [
    | inl e ↦ rw (propagate_result, e) h
    | inr (es, e) ↦ rw (propagate_result, e) (write_back-Short cs (consume_head o es) h)
  ]

  state-hand_over :
      (s : Clusters) (t : Task) (e : TaskEvent) (rest : List TaskEvent) (cs cs' : ClusterState)
      → hand_over c s t e rest cs ≡ some cs'
      → cs'.state ≡ cs.state
  state-hand_over s t e [] cs cs' h = ground arith
  state-hand_over s t e (l ∷ ls) cs cs' h = ground arith

  state-propagate_in_flight_state :
      (e : TaskEvent) (rest : List TaskEvent) (cs cs' : ClusterState)
      → propagate_in_flight_state c e rest cs ≡ some cs'
      → cs'.state ≡ cs.state
  unfolding propagate_in_flight_state
  state-propagate_in_flight_state e rest cs cs' h = ground arith

  advance_event-Short :
      (e : TaskEvent) (rest : List TaskEvent) (cs : ClusterState)
      → ShortState cs
      → Leaves ShortState (advance_event c e rest cs)
  advance_event-Short e rest cs h = elim (Option-cases (get_elem? e.pipeline e.current_stage)) [
    | inl over ↦ elim (Option-cases (propagate_in_flight_state c e rest cs)) [
      | inl p ↦ rw (over, p, advance_event) h
      | inr (cs', p) ↦
          let same = ap (λ s. s.previous) (state-propagate_in_flight_state e rest cs cs' p) in
          rw (over, p, advance_event) (subst Short (sym same) h)
    ]
    | inr (stage, next) ↦ rw (next, advance_event) h
  ]

  advance_from-Short :
      (es : List TaskEvent) (cs : ClusterState)
      → ShortState cs
      → Leaves ShortState (advance_from c es cs)
  advance_from-Short [] cs h = tt
  advance_from-Short (e ∷ rest) cs h = advance_event-Short (next_stage c e) rest cs h

  pub advance_to_next_stage-Short :
      (cs : ClusterState) → ShortState cs → Leaves ShortState (advance_to_next_stage c cs)
  unfolding advance_to_next_stage
  advance_to_next_stage-Short cs h = advance_from-Short cs.in_flight cs h

  module _ (env : Around) where
    reschedule_from-Short :
        (es : List TaskEvent) (cs : ClusterState)
        → ShortState cs
        → Commits ShortState (reschedule_from c env es cs)
    reschedule_from-Short [] cs h = tt
    reschedule_from-Short (e ∷ rest) cs h = h

    advanced-Short :
        (a : Attempt ClusterState) → Leaves ShortState a → Commits ShortState (advanced c env a)
    advanced-Short (ok cs) h = h
    advanced-Short (failed _) h = tt
    advanced-Short panics h = tt

    after_success-Short :
        (a : Attempt ClusterState)
        → Leaves ShortState a
        → Commits ShortState (after_success c env a)
    after_success-Short (ok cs) h = elim (Option-cases (stage_at cs.in_flight)) [
      | inl e ↦ rw (e, after_success) tt
      | inr (stage, e) ↦
          rw (e, after_success)
            (advanced-Short _
              (advance_to_next_stage-Short _ (remember-Short _ cs.state.previous h)))
    ]
    after_success-Short (failed cs) h = reschedule_from-Short cs.in_flight cs h
    after_success-Short panics h = tt

    after_error-Short :
        (warn : Bool) (a : Attempt ClusterState)
        → Leaves ShortState a
        → Commits ShortState (after_error c env warn a)
    after_error-Short true (ok cs) h = advanced-Short _ (advance_to_next_stage-Short cs h)
    after_error-Short false (ok cs) h = h
    after_error-Short warn (failed cs) h = reschedule_from-Short cs.in_flight cs h
    after_error-Short warn panics h = tt

    propagated-Short :
        (kind : ErrorKind) (o : Outcome) (cs : ClusterState)
        → ShortState cs
        → Leaves ShortState (if is_partial c env kind then propagate_result c o cs else ok cs)
    propagated-Short fatal o cs h = h
    propagated-Short partial_error o cs h = propagate_result-Short o cs h

    process_task_with_error-Short :
        (w : Work) (stage : Stage) (kind : ErrorKind) (d : String) (cs : ClusterState)
        → ShortState cs
        → Commits ShortState (process_task_with_error c env w stage kind d cs)
    unfolding process_task_with_error
    process_task_with_error-Short w stage kind d cs h = elim (Option-cases (counted c env cs)) [
      | inl e ↦ rw (e, process_task_with_error) tt
      | inr (m, e) ↦
          rw (e, process_task_with_error)
            (after_error-Short _ _
              (propagated-Short kind w.result.result _ (remember-Short _ cs.state.previous h)))
    ]

    at_stage-Short :
        (w : Work) (cs : ClusterState) (stage : Stage)
        → ShortState cs
        → Commits ShortState (at_stage c env w cs stage)
    at_stage-Short w cs stage h = elim (Bool-cases (kind_eq stage.kind w.stage)) [
      | inl same ↦ elim (Option-cases w.result.error) [
        | inl e ↦
            rw (same, e, at_stage)
              (after_success-Short _ (propagate_result-Short w.result.result cs h))
        | inr ((kind, d), e) ↦
            rw (same, e, at_stage) (process_task_with_error-Short w stage kind d cs h)
      ]
      | inr differs ↦ rw (differs, at_stage) tt
    ]

    handle_from-Short :
        (w : Work) (cs : ClusterState) (es : List TaskEvent)
        → ShortState cs
        → Commits ShortState (handle_from c env w cs es)
    handle_from-Short w cs [] h = tt
    handle_from-Short w cs (e ∷ rest) h = elim (Bool-cases (is_for c env w e)) [
      | inr stale ↦ rw (stale, handle_from) tt
      | inl meant ↦ elim (Option-cases (get_elem? e.pipeline e.current_stage)) [
        | inl out ↦ rw (meant, out, handle_from) tt
        | inr (stage, at) ↦ rw (meant, at, handle_from) (at_stage-Short w cs stage h)
      ]
    ]

    -- Whatever message is handled, a cluster that remembers at most three results is written back
    -- with at most three.
    pub handle-Short :
        (w : Work) (cs : ClusterState) → ShortState cs → Commits ShortState (handle c env w cs)
    unfolding handle
    handle-Short w cs h = handle_from-Short w cs cs.in_flight h
