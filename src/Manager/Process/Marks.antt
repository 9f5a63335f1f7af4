-- ===== src/Manager/Process/Marks.antt =====
-- The place of a cluster's chain of events while a result is taken up and the task moves on.
use claudie.Prelude.{
  ℕ, ◌≡◌, refl, List, [], ◌∷◌, some, String, arith, Option-cases, inl, inr, get_elem?, ◌∙◌, ◌⊎◌,
}
use claudie.Spec.{Clusters}
use claudie.Spec.Task.{Task, Outcome}
use claudie.Spec.Clear.{Consumed, ok, refused, panics, mutable_clusters}
use claudie.Store.{ClusterState, TaskEvent}
use claudie.Store.Stages.{all_or_none}
use claudie.Store.Convert.{
  Codec, PbTaskEvent, event_to_grpc, event_from_grpc, convert_to_grpc_task_event,
  convert_from_grpc_task_event,
}
use claudie.Manager.Stages.{
  Attempt, write_back, propagate_result, hand_over, propagate_in_flight_state, advance_event,
  finish, consume_head,
}

-- What a chain of events is known by: the id and the index of each.
abbrev pub marks : List TaskEvent → List (String × ℕ)
marks [] = []
marks (e ∷ es) = (e.id, e.current_stage) ∷ marks es

abbrev pb_marks : List PbTaskEvent → List (String × ℕ)
pb_marks [] = []
pb_marks (e ∷ es) = (e.id, e.current_stage) ∷ pb_marks es

module _ (c : Codec) where
  marks-to :
      (es : List TaskEvent) (ps : List PbTaskEvent)
      → all_or_none (event_to_grpc c) es ≡ some ps
      → pb_marks ps ≡ marks es
  marks-to [] ps e = ground arith
  marks-to (x ∷ es) ps e = elim (Option-cases (event_to_grpc c x)) [
    | inl n ↦ absurd (ground arith)
    | inr (p, n) ↦ elim (Option-cases (all_or_none (event_to_grpc c) es)) [
      | inl m ↦ absurd (ground arith)
      | inr (qs, m) ↦
          let same : p ∷ qs ≡ ps = ground arith in
          let one : (p.id ≡ x.id) × (p.current_stage ≡ x.current_stage) = ground arith in
          rw (← same) (ground (arith, one, marks-to es qs m))
    ]
  ]

  marks-from :
      (ps : List PbTaskEvent) (es : List TaskEvent)
      → all_or_none (event_from_grpc c) ps ≡ some es
      → marks es ≡ pb_marks ps
  marks-from [] es e = ground arith
  marks-from (x ∷ ps) es e = elim (Option-cases (event_from_grpc c x)) [
    | inl n ↦ absurd (ground arith)
    | inr (p, n) ↦ elim (Option-cases (all_or_none (event_from_grpc c) ps)) [
      | inl m ↦ absurd (ground arith)
      | inr (qs, m) ↦
          let same : p ∷ qs ≡ es = ground arith in
          let one : (p.id ≡ x.id) × (p.current_stage ≡ x.current_stage) = ground arith in
          rw (← same) (ground (arith, one, marks-from ps qs m))
    ]
  ]

  marks-consume_head :
      (o : Outcome) (ps qs : List PbTaskEvent)
      → consume_head o ps ≡ ok qs
      → pb_marks qs ≡ pb_marks ps
  unfolding consume_head
  marks-consume_head o [] qs e = ground arith
  marks-consume_head o (p ∷ ps) qs e = ground arith

  marks-write_back :
      (cs cs' : ClusterState) (r : Consumed (List PbTaskEvent)) (ms : List (String × ℕ))
      → ((ps : List PbTaskEvent) → r ≡ ok ps → pb_marks ps ≡ ms)
      → write_back c cs r ≡ Attempt.ok cs'
      → marks cs'.in_flight ≡ ms
  unfolding convert_from_grpc_task_event
  marks-write_back cs cs' (ok ps) ms h e = elim (Option-cases (convert_from_grpc_task_event c ps)) [
    | inl n ↦ absurd (ground arith)
    | inr (es, n) ↦
        let same : es ≡ cs'.in_flight = ground arith in rw (← same) (marks-from ps es n ∙ h ps refl)
  ]
  marks-write_back cs cs' (refused _ _) ms h e = absurd (cc e)
  marks-write_back cs cs' panics ms h e = absurd (cc e)

  -- The chain is at the same place after a result is taken up.
  pub marks-propagate_result :
      (o : Outcome) (cs cs' : ClusterState)
      → propagate_result c o cs ≡ Attempt.ok cs'
      → marks cs'.in_flight ≡ marks cs.in_flight
  unfolding propagate_result convert_to_grpc_task_event
  marks-propagate_result o cs cs' e =
      elim (Option-cases (convert_to_grpc_task_event c cs.in_flight)) [
        | inl n ↦ absurd (ground arith)
        | inr (ps, n) ↦
            marks-write_back cs cs' (consume_head o ps) (marks cs.in_flight)
              (λ qs same. marks-consume_head o ps qs same ∙ marks-to cs.in_flight ps n)
              (rw (n, propagate_result) at e)
      ]

  marks-hand_over :
      (s : Clusters) (t : Task) (e : TaskEvent) (rest : List TaskEvent) (cs cs' : ClusterState)
      → hand_over c s t e rest cs ≡ some cs'
      → marks (finish c cs').in_flight ≡ marks rest
  marks-hand_over s t e [] cs cs' h = ground arith
  marks-hand_over s t e (l ∷ ls) cs cs' h = ground arith

  marks-propagate_in_flight_state :
      (e : TaskEvent) (rest : List TaskEvent) (cs cs' : ClusterState)
      → propagate_in_flight_state c e rest cs ≡ some cs'
      → marks (finish c cs').in_flight ≡ marks rest
  unfolding propagate_in_flight_state
  marks-propagate_in_flight_state e rest cs cs' h = elim (Option-cases (c.unmarshal_task e.task)) [
    | inl n ↦ absurd (ground arith)
    | inr (t, n) ↦ elim (Option-cases (mutable_clusters t)) [
      | inl m ↦ absurd (ground arith)
      | inr (s, m) ↦ marks-hand_over s t e rest cs cs' (ground arith)
    ]
  ]

  -- The chain is one stage further, or the task is gone from it.
  pub marks-advance_event :
      (e : TaskEvent) (rest : List TaskEvent) (cs cs' : ClusterState)
      → advance_event c e rest cs ≡ Attempt.ok cs'
      → (marks cs'.in_flight ≡ marks (e ∷ rest)) ⊎ (marks cs'.in_flight ≡ marks rest)
  marks-advance_event e rest cs cs' h = elim (Option-cases (get_elem? e.pipeline e.current_stage)) [
    | inr (stage, next) ↦ inl (ground arith)
    | inl over ↦ elim (Option-cases (propagate_in_flight_state c e rest cs)) [
      | inl p ↦ absurd (ground arith)
      | inr (cs'', p) ↦
          let same : finish c cs'' ≡ cs' = ground arith in
          inr (rw (← same) (marks-propagate_in_flight_state e rest cs cs'' p))
    ]
  ]
