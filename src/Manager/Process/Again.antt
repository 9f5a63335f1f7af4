-- ===== src/Manager/Process/Again.antt =====
-- ProcessTask: messages that are delivered again.
use claudie.Prelude.{
  ℕ, ◌≡◌, ◌≢◌, refl, ◌==◌, Bool, true, false, ◌&&◌, not, List, [], ◌∷◌, none, String, arith,
  Bool-cases, Option-cases, inl, inr, get_elem?, str_eq, eq_iff, All,
}
use claudie.Store.{ClusterState, TaskEvent, Stage, kind_eq, done}
use claudie.Store.Convert.{Codec}
use claudie.Manager.Stages.{
  Attempt, propagate_result, advance_from, advance_to_next_stage, next_stage,
}
use claudie.Manager.Process.{
  Work, Around, discard, commit, handle, handle_from, at_stage, after_success, advanced,
  reschedule_from, remembered, stage_at, is_for, rescheduled,
}
use claudie.Manager.Process.Marks.{marks, marks-propagate_result, marks-advance_event}

-- The events of a lower priority have other ids than the message.
abbrev pub Others : String → List (String × ℕ) → Type 0
Others i [] = Unit
Others i (_ ∷ ms) = All (λ m. m.0 ≢ i) ms

-- The chain is not, or no longer, where a message is for.
abbrev pub past : Work → List (String × ℕ) → Bool
past w [] = true
past w ((i, n) ∷ _) = not (str_eq i w.task_id && n == w.task_stage)

module _ (c : Codec) (env : Around) (w : Work) where
  pub handle_from-past :
      (cs : ClusterState) (es : List TaskEvent)
      → past w (marks es) ≡ true
      → handle_from c env w cs es ≡ discard
  handle_from-past cs [] h = refl
  handle_from-past cs (e ∷ rest) h =
      let other : is_for c env w e ≡ false = ground arith in rw other refl

  past-next :
      (e : TaskEvent) (rest : List TaskEvent)
      → e.current_stage ≡ w.task_stage
      → past w (marks (next_stage c e ∷ rest)) ≡ true
  past-next e rest h = ground arith

  past-rest :
      (es : List TaskEvent) → All (λ m. m.0 ≢ w.task_id) (marks es) → past w (marks es) ≡ true
  past-rest [] h = refl
  past-rest (e ∷ es) h = ground (arith, eq_iff e.id w.task_id, h.0)

  advance_from-past :
      (es : List TaskEvent) (cs cs' : ClusterState)
      → past w (marks es) ≡ false
      → Others w.task_id (marks es)
      → advance_from c es cs ≡ Attempt.ok cs'
      → past w (marks cs'.in_flight) ≡ true
  advance_from-past [] cs cs' h o e = absurd (cc e)
  advance_from-past (x ∷ rest) cs cs' h o e =
      elim (marks-advance_event c (next_stage c x) rest cs cs' e) [
        | inl on ↦ rw on (past-next x rest (ground arith))
        | inr gone ↦ rw gone (past-rest rest o)
      ]

  advanced-past :
      (cs cs' : ClusterState)
      → past w (marks cs.in_flight) ≡ false
      → Others w.task_id (marks cs.in_flight)
      → advanced c env (advance_to_next_stage c cs) ≡ commit cs'
      → past w (marks cs'.in_flight) ≡ true
  unfolding advance_to_next_stage
  advanced-past cs cs' h o e = by_attempt (advance_from c cs.in_flight cs) refl e
    where
      by_attempt :
          (a : Attempt ClusterState)
          → advance_from c cs.in_flight cs ≡ a
          → advanced c env a ≡ commit cs'
          → past w (marks cs'.in_flight) ≡ true
      by_attempt (Attempt.ok x) same f =
          advance_from-past cs.in_flight cs cs' h o (rw same (ground arith))
      by_attempt (Attempt.failed _) same f = absurd (cc f)
      by_attempt Attempt.panics same f = absurd (cc f)

  reschedule_from-past :
      (es : List TaskEvent) (cs cs' : ClusterState)
      → env.new_uuid ≢ w.task_id
      → reschedule_from c env es cs ≡ commit cs'
      → past w (marks cs'.in_flight) ≡ true
  reschedule_from-past [] cs cs' u e = absurd (cc e)
  reschedule_from-past (x ∷ rest) cs cs' u e =
      let same : rescheduled c env x rest cs ≡ cs' = ground arith in
      rw (← same) (ground (arith, eq_iff env.new_uuid w.task_id))

  after_success-past :
      (cs cs' : ClusterState) (a : Attempt ClusterState)
      → env.new_uuid ≢ w.task_id
      → past w (marks cs.in_flight) ≡ false
      → Others w.task_id (marks cs.in_flight)
      → propagate_result c w.result.result cs ≡ a
      → after_success c env a ≡ commit cs'
      → past w (marks cs'.in_flight) ≡ true
  after_success-past cs cs' (Attempt.ok x) u h o p e =
      let same = marks-propagate_result c w.result.result cs x p in
      elim (Option-cases (stage_at x.in_flight)) [
        | inl out ↦ absurd (ground arith)
        | inr (stage, at) ↦
            advanced-past (remembered c env done stage x) cs' (rw same h) (rw same o)
              (rw (at, after_success) at e)
      ]
  after_success-past cs cs' (Attempt.failed x) u h o p e =
      reschedule_from-past x.in_flight x cs' u e
  after_success-past cs cs' Attempt.panics u h o p e = absurd (cc e)

  at_stage-past :
      (cs cs' : ClusterState) (stage : Stage)
      → w.result.error ≡ none
      → env.new_uuid ≢ w.task_id
      → past w (marks cs.in_flight) ≡ false
      → Others w.task_id (marks cs.in_flight)
      → at_stage c env w cs stage ≡ commit cs'
      → past w (marks cs'.in_flight) ≡ true
  at_stage-past cs cs' stage ne u h o e = elim (Bool-cases (kind_eq stage.kind w.stage)) [
    | inr differs ↦ absurd (ground arith)
    | inl same ↦ after_success-past cs cs' _ u h o refl (ground arith)
  ]

  handle-past :
      (cs cs' : ClusterState)
      → w.result.error ≡ none
      → env.new_uuid ≢ w.task_id
      → Others w.task_id (marks cs.in_flight)
      → handle c env w cs ≡ commit cs'
      → past w (marks cs'.in_flight) ≡ true
  unfolding handle
  handle-past cs cs' ne u o e = elim (Bool-cases (past w (marks cs.in_flight))) [
    | inl stale ↦ let dropped = handle_from-past cs cs.in_flight stale in absurd (ground arith)
    | inr meant ↦ on_chain cs.in_flight meant e
  ]
    where
      on_chain :
          (es : List TaskEvent)
          → past w (marks cs.in_flight) ≡ false
          → handle_from c env w cs es ≡ commit cs'
          → past w (marks cs'.in_flight) ≡ true
      on_chain [] m f = absurd (cc f)
      on_chain (x ∷ rest) m f = elim (Bool-cases (is_for c env w x)) [
        | inr stale ↦ absurd (ground arith)
        | inl yes_for ↦ elim (Option-cases (get_elem? x.pipeline x.current_stage)) [
          | inl out ↦ absurd (ground arith)
          | inr (stage, at) ↦ at_stage-past cs cs' stage ne u m o (ground arith)
        ]
      ]

  -- Once a successful result is written, the same message delivered again is dropped, provided
  -- that a rescheduled task gets an id of its own and that the tasks of a lower priority have
  -- other ids than the message.
  pub handle_again :
      (cs cs' : ClusterState)
      → w.result.error ≡ none
      → env.new_uuid ≢ w.task_id
      → Others w.task_id (marks cs.in_flight)
      → handle c env w cs ≡ commit cs'
      → handle c env w cs' ≡ discard
  unfolding handle
  handle_again cs cs' ne u o e = handle_from-past cs' cs'.in_flight (handle-past cs cs' ne u o e)
