-- ===== src/Manager/Process/Run/Ends.antt =====
-- ProcessTask: a task whose stages all succeed comes to its end.
use claudie.Prelude.{
  ℕ, zero, suc, ◌≡◌, refl, ◌+◌, ◌<◌, ◌^◌, ◌%◌, true, List, [], ◌∷◌, none, some, arith, ap, subst,
  sym, ◌∙◌, get_elem?, length, All, Option-cases, Bool-cases, inl, inr, ◌⊎◌, eq_iff,
}
use claudie.Spec.Task.{Task, Outcome}
use claudie.Store.{ClusterState, TaskEvent, Stage, done}
use claudie.Store.Convert.{Codec}
use claudie.Store.RoundTrip.{IsCodec}
use claudie.Manager.Stages.{
  Attempt, propagate_result, propagate_in_flight_state, advance_to_next_stage, next_stage,
}
use claudie.Manager.Process.{Around, handle, after_success, stage_at, remembered}
use claudie.Manager.Process.Run.{work_at, committed, deliver, run}
use claudie.Manager.Counters.{populate_task_success_counters}
use claudie.Store.{wait_for_pickup}
use claudie.Prelude.{leb}
use claudie.Manager.Process.{is_for}
use claudie.Manager.Process.Run.Ready.{Writes, Accepted, Ready, taken, get_elem?-some, kind_eq_refl}

get_elem?-left :
    {A : Type 0} (xs : List A) (i : ℕ) (x : A) → get_elem? xs i ≡ some x → i < length xs
get_elem?-left [] i x h = absurd (cc h)
get_elem?-left (y ∷ xs) zero x h = omega arith
get_elem?-left (y ∷ xs) (suc i) x h = omega (arith, get_elem?-left xs i x h)

get_elem?-last :
    {A : Type 0} (xs : List A) (i : ℕ)
    → i < length xs
    → get_elem? xs (i + 1) ≡ none
    → length xs ≡ i + 1
get_elem?-last xs i h n = elim (Bool-cases (leb (length xs) (i + 1))) [
  | inl small ↦ ground arith
  | inr large ↦ let (x, found) = get_elem?-some xs (i + 1) (ground arith) in absurd (ground arith)
]

-- Where a cluster is once `n` more stages have succeeded than `e` is at.
record Moved (c : Codec) (Good : Task → Type 0) (e : TaskEvent) (cs : ClusterState) : Type 0 where
  event : TaskEvent
  ready : Ready c Good event
  now : cs.in_flight ≡ event ∷ []
  stage : event.current_stage ≡ e.current_stage + 1
  pipeline : length event.pipeline ≡ length e.pipeline

abbrev pub Ended : ClusterState → Type 0
Ended cs = (cs.in_flight ≡ []) × (cs.state.status ≡ done)

-- The step to the next stage, or to the end of the task.
steps :
    (c : Codec) (l : IsCodec c) (Good : Task → Type 0) (w : Writes c Good)
    → (e : TaskEvent) (r : Ready c Good e) (cs : ClusterState)
    → (cs' : ClusterState) × (advance_to_next_stage c (record cs { in_flight = e ∷ [] })
        ≡ Attempt.ok cs')
      × (Moved c Good e cs' ⊎ ((length e.pipeline ≡ e.current_stage + 1) × Ended cs'))
unfolding advance_to_next_stage propagate_in_flight_state
steps c l Good w e r cs =
    let left = r.left in
    let fits = r.fits in
    let at : (e.current_stage + 1) % 2 ^ 32 ≡ e.current_stage + 1 = omega arith in
    elim (Option-cases (get_elem? e.pipeline (e.current_stage + 1))) [
      | inr (stage, found) ↦
          let e' = next_stage c e in
          let cs' : ClusterState = record cs {
            in_flight = e' ∷ [];
            state = record (cs.state) {
              status = wait_for_pickup;
              description = stage.description.about;
            };
          } in
          let there : get_elem? e.pipeline ((e.current_stage + 1) % 2 ^ 32) ≡ some stage =
            rw at found in
          let r' : Ready c Good e' = record {
            task = r.task;
            good = r.good;
            time = r.time;
            reads = r.reads;
            parses = r.parses;
            year = r.year;
            known = r.known;
            left = get_elem?-left e.pipeline _ stage there;
            fits = r.fits;
          } in
          (
            cs',
            ground (arith, there),
            inl (record { event = e'; ready = r'; now = refl; stage = at; pipeline = refl }),
          )
      | inl none_left ↦
          let (s, d, holds, stored) = w.clusters r.task r.good in
          let cs' : ClusterState = record cs {
            current = d;
            in_flight = [];
            state = record (cs.state) { status = done; description = "" };
            scale_up_failed = populate_task_success_counters r.task cs.scale_up_failed;
          } in
          let over : get_elem? e.pipeline ((e.current_stage + 1) % 2 ^ 32) ≡ none =
            rw at none_left in
          let reads = r.reads in
          (
            cs',
            ground (arith, over, reads, holds, stored),
            inr (get_elem?-last e.pipeline _ left none_left, (refl, refl)),
          )
    ]

module _ (c : Codec) (env : Around) where
  handle_head :
      (e : TaskEvent) (stage : Stage) (o : Outcome) (cs : ClusterState)
      → get_elem? e.pipeline e.current_stage ≡ some stage
      → handle c env (work_at e stage o) (record cs { in_flight = e ∷ [] })
        ≡ after_success c env (propagate_result c o (record cs { in_flight = e ∷ [] }))
  unfolding handle
  handle_head e stage o cs at =
      let meant : is_for c env (work_at e stage o) e ≡ true = ground (arith, eq_iff e.id e.id) in
      let kind = kind_eq_refl stage.kind in ground (arith, meant, kind, at)

  deliver_head :
      (e : TaskEvent) (stage : Stage) (o : Outcome) (cs : ClusterState)
      → get_elem? e.pipeline e.current_stage ≡ some stage
      → deliver c env (record cs { in_flight = e ∷ [] }) o
        ≡ committed (after_success c env (propagate_result c o (record cs { in_flight = e ∷ [] })))
  deliver_head e stage o cs at = rw (at, deliver) (ap committed (handle_head e stage o cs at))

  by_parts :
      {a : Attempt ClusterState} {cs cs' : ClusterState} {stage : Stage}
      → a ≡ Attempt.ok cs
      → stage_at cs.in_flight ≡ some stage
      → advance_to_next_stage c (remembered c env done stage cs) ≡ Attempt.ok cs'
      → committed (after_success c env a) ≡ some cs'
  by_parts {a} {cs} {cs'} took at went = ground (arith, took, at, went)

  ran_out : (os : List Outcome) (cs : ClusterState) → length os ≡ 0 → run c env os cs ≡ some cs
  unfolding run
  ran_out [] cs h = refl
  ran_out (o ∷ os) cs h = absurd (omega arith)

  module _ (l : IsCodec c) (Good : Task → Type 0) (w : Writes c Good) where
    step :
        (o : Outcome)
        → Accepted Good o
        → (e : TaskEvent) (r : Ready c Good e) (cs : ClusterState)
        → (cs' : ClusterState) × (deliver c env (record cs { in_flight = e ∷ [] }) o ≡ some cs')
          × (Moved c Good e cs' ⊎ ((length e.pipeline ≡ e.current_stage + 1) × Ended cs'))
    step o a e r cs =
        let (stage, at) = get_elem?-some e.pipeline e.current_stage r.left in
        let (e', r', took, same, len) = taken c l Good w o a e r cs in
        let (stage', at') = get_elem?-some e'.pipeline e'.current_stage r'.left in
        let (cs', went, how) =
          steps c l Good w e' r'
            (remembered c env done stage' (record cs { in_flight = e' ∷ [] })) in
        (
          cs',
          deliver_head e stage o cs at ∙ by_parts took at' went,
          elim how [
            | inl m ↦ inl (record {
              event = m.event;
              ready = m.ready;
              now = m.now;
              stage = omega (arith, m.stage, same);
              pipeline = omega (arith, m.pipeline, len);
            })
            | inr (last, ended) ↦ inr (omega (arith, last, same, len), ended)
          ],
        )

    -- A task that is the only one in flight comes to its end: one message of success for each stage
    -- that is left, each delivered once, are all written back, and then no task is in flight and
    -- the status is done. This is under the conditions that the task can be read, that its stages
    -- are of known kinds, and that its clusters and the clusters after each result can be written.
    pub run_ends :
        (os : List Outcome) (e : TaskEvent) (cs : ClusterState)
        → Ready c Good e
        → All (Accepted Good) os
        → length os + e.current_stage ≡ length e.pipeline
        → (cs' : ClusterState) × (run c env os (record cs { in_flight = e ∷ [] }) ≡ some cs')
          × Ended cs'
    unfolding run
    run_ends [] e cs r a n = absurd (omega (arith, r.left))
    run_ends (o ∷ os) e cs r (a, as_) n =
        let (cs', went, how) = step o a e r cs in
        elim how [
          | inl m ↦
              let (cs'', ran, ended) =
                run_ends os m.event cs' m.ready as_ (omega (arith, m.stage, m.pipeline)) in
              (
                cs'',
                rw (went, run)
                    (subst (λ es. run c env os (record cs' { in_flight = es }) ≡ some cs'')
                      (sym m.now) ran),
                ended,
              )
          | inr (last, ended) ↦
              (cs', rw (went, run) (ran_out os cs' (omega (arith, n, last))), ended)
        ]
