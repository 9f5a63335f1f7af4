-- ===== src/Manager/Process/Finish.antt =====
-- ProcessTask: the end of a task.
use claudie.Prelude.{
  ℕ, zero, suc, ◌≤◌, ◌≡◌, refl, ◌+◌, ◌<◌, true, List, [], ◌∷◌, Option, none, some, arith, ap,
  get_elem?, length, subst, Option-cases, inl, inr, ◌^◌,
}
use claudie.Spec.{Clusters}
use claudie.Spec.Task.{Task}
use claudie.Spec.Clear.{Consumed, mutable_clusters}
use claudie.Store.{ClusterState, TaskEvent, Stage, kind_eq, done}
use claudie.Store.Convert.{
  Codec, PbTaskEvent, event_to_grpc, event_from_grpc, convert_to_grpc_task_event,
  convert_from_grpc_task_event, convert_from_grpc_clusters, convert_to_grpc_clusters,
}
use claudie.Store.Stages.{
  all_or_none, stage_from_grpc, stage_to_grpc, convert_from_grpc_stages, convert_to_grpc_stages,
}
use claudie.Store.RoundTrip.{IsCodec, kept, convert_clusters_round_trip}
use claudie.Manager.Stages.{
  write_back, propagate_result, propagate_in_flight_state, advance_event, advance_to_next_stage,
  consume_head, consume_outcome, next_stage,
}
use claudie.Manager.Process.{
  Work, Around, commit, handle, handle_from, after_success, advanced, is_for, remembered,
}

pub length-all_or_none :
    {A B : Type 0} (f : A → Option B) (xs : List A) (ys : List B)
    → all_or_none f xs ≡ some ys
    → length ys ≡ length xs
length-all_or_none f [] ys e = ground arith
length-all_or_none f (x ∷ xs) ys e = elim (Option-cases (f x)) [
  | inl n ↦ absurd (ground arith)
  | inr (y, n) ↦ elim (Option-cases (all_or_none f xs)) [
    | inl m ↦ absurd (ground arith)
    | inr (zs, m) ↦
        let same : y ∷ zs ≡ ys = ground arith in rw (← same) (ap suc (length-all_or_none f xs zs m))
  ]
]

pub get_elem?-over : {A : Type 0} (xs : List A) (i : ℕ) → length xs ≤ i → get_elem? xs i ≡ none
get_elem?-over [] i e = refl
get_elem?-over (x ∷ xs) zero e = absurd (omega arith)
get_elem?-over (x ∷ xs) (suc i) e = get_elem?-over xs i (omega arith)

-- An event and its written form.
record Same (c : Codec) (p : PbTaskEvent) (e : TaskEvent) : Type 0 where
  pub task : c.unmarshal_task e.task ≡ some p.task
  pub stage : e.current_stage ≡ p.current_stage
  pub pipeline : length e.pipeline ≡ length p.pipeline

from-Same :
    (c : Codec) (l : IsCodec c) (p : PbTaskEvent) (e : TaskEvent)
    → event_from_grpc c p ≡ some e
    → Same c p e
unfolding convert_from_grpc_stages
from-Same c l p e h = elim (Option-cases (c.marshal_task p.task)) [
  | inl n ↦ absurd (ground arith)
  | inr (b, n) ↦ elim (Option-cases (convert_from_grpc_stages c.names p.pipeline)) [
    | inl m ↦ absurd (ground arith)
    | inr (ys, m) ↦ record {
      task = ground (arith, l.task p.task b n);
      stage = ground arith;
      pipeline = ground (arith, length-all_or_none (stage_from_grpc c.names) p.pipeline ys m);
    }
  ]
]

to-Same : (c : Codec) (p : PbTaskEvent) (e : TaskEvent) → event_to_grpc c e ≡ some p → Same c p e
unfolding convert_to_grpc_stages
to-Same c p e h = elim (Option-cases (c.unmarshal_task e.task)) [
  | inl n ↦ absurd (ground arith)
  | inr (t, n) ↦ elim (Option-cases (c.parse_time e.timestamp)) [
    | inl m ↦ absurd (ground arith)
    | inr (k, m) ↦ elim (Option-cases (convert_to_grpc_stages c.names e.pipeline)) [
      | inl q ↦ absurd (ground arith)
      | inr (ys, q) ↦ record {
        task = ground arith;
        stage = ground arith;
        pipeline = ground (arith, length-all_or_none (stage_to_grpc c.names) e.pipeline ys q);
      }
    ]
  ]
]

-- The task is over, and its clusters can be read as the current ones.
abbrev pub Finished : Codec → Clusters → ClusterState → Type 0
Finished c s cs =
    (cs.in_flight ≡ [])
    × (cs.state.status ≡ done)
    × (convert_to_grpc_clusters c cs.current ≡ some (kept s))

module _ (c : Codec) (l : IsCodec c) (env : Around) where
  finish_event :
      (e : TaskEvent) (p : PbTaskEvent) (s : Clusters) (cs cs' : ClusterState)
      → Same c p e
      → length p.pipeline ≡ p.current_stage + 1
      → p.current_stage + 1 < 2 ^ 32
      → mutable_clusters p.task ≡ some s
      → advanced c env (advance_event c (next_stage c e) [] cs) ≡ commit cs'
      → Finished c s cs'
  unfolding propagate_in_flight_state
  finish_event e p s cs cs' same last fits m h =
      let over : get_elem? e.pipeline (next_stage c e).current_stage ≡ none =
        get_elem?-over e.pipeline (next_stage c e).current_stage
          (omega (arith, same.stage, same.pipeline)) in
      let read = same.task in
      elim (Option-cases (convert_from_grpc_clusters c s)) [
        | inl n ↦ absurd (ground arith)
        | inr (d, n) ↦
            (ground arith, ground arith, ground (arith, convert_clusters_round_trip c l s d n))
      ]

  finish_written :
      (p : PbTaskEvent) (s : Clusters) (cs cs' : ClusterState)
      → length p.pipeline ≡ p.current_stage + 1
      → p.current_stage + 1 < 2 ^ 32
      → mutable_clusters p.task ≡ some s
      → after_success c env (write_back c cs (Consumed.ok (p ∷ []))) ≡ commit cs'
      → Finished c s cs'
  unfolding convert_from_grpc_task_event advance_to_next_stage
  finish_written p s cs cs' last fits m h = elim (Option-cases (event_from_grpc c p)) [
    | inl n ↦ absurd (ground arith)
    | inr (e, n) ↦ elim (Option-cases (get_elem? e.pipeline e.current_stage)) [
      | inl o ↦ absurd (ground arith)
      | inr (stage, o) ↦
          finish_event e p s (remembered c env done stage (record cs { in_flight = e ∷ [] })) cs'
            (from-Same c l p e n) last fits m (ground arith)
    ]
  ]

  finish_from :
      (w : Work) (e : TaskEvent) (p : PbTaskEvent) (t : Task) (s : Clusters) (stage : Stage)
      (cs cs' : ClusterState)
      → is_for c env w e ≡ true
      → get_elem? e.pipeline e.current_stage ≡ some stage
      → kind_eq stage.kind w.stage ≡ true
      → w.result.error ≡ none
      → length e.pipeline ≡ e.current_stage + 1
      → e.current_stage + 1 < 2 ^ 32
      → event_to_grpc c e ≡ some p
      → consume_outcome w.result.result p.task ≡ Consumed.ok t
      → mutable_clusters t ≡ some s
      → convert_to_grpc_task_event c cs.in_flight ≡ some (p ∷ [])
      → handle_from c env w cs (e ∷ []) ≡ commit cs'
      → Finished c s cs'
  unfolding propagate_result consume_head
  finish_from w e p t s stage cs cs' meant at kind ne last fits read took m all h =
      let same = to-Same c p e read in
      finish_written (record p { task = t }) s cs cs' (omega (arith, same.stage, same.pipeline))
        (omega (arith, same.stage)) m (ground arith)

  -- When the message reports success for the only event of the chain, at the last stage of its
  -- pipeline, and the cluster is written back, then the cluster has no event left, its status is
  -- done, and its current clusters are read back as those that the task holds once it has consumed
  -- the result, except that the loadbalancers are gone if the task holds no kubernetes cluster.
  pub handle_finish :
      (w : Work) (e : TaskEvent) (p : PbTaskEvent) (t : Task) (s : Clusters) (stage : Stage)
      (cs cs' : ClusterState)
      → cs.in_flight ≡ e ∷ []
      → is_for c env w e ≡ true
      → get_elem? e.pipeline e.current_stage ≡ some stage
      → kind_eq stage.kind w.stage ≡ true
      → w.result.error ≡ none
      → length e.pipeline ≡ e.current_stage + 1
      → e.current_stage + 1 < 2 ^ 32
      → event_to_grpc c e ≡ some p
      → consume_outcome w.result.result p.task ≡ Consumed.ok t
      → mutable_clusters t ≡ some s
      → handle c env w cs ≡ commit cs'
      → Finished c s cs'
  unfolding handle convert_to_grpc_task_event
  handle_finish w e p t s stage cs cs' now meant at kind ne last fits read took m h =
      finish_from w e p t s stage cs cs' meant at kind ne last fits read took m
        (rw (now, read, all_or_none) refl)
        (subst (λ es. handle_from c env w cs es ≡ commit cs') now h)
