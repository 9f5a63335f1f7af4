-- ===== src/Manager/Process/Run/Ready.antt =====
-- A task whose stages all succeed comes to its end.
use claudie.Prelude.{
  ℕ, zero, suc, ◌≡◌, refl, ◌<◌, ◌^◌, true, List, [], ◌∷◌, some, arith, get_elem?, length, map, All,
  is_some, eq_iff,
}
use claudie.Spec.{Clusters}
use claudie.Spec.Task.{Task, Outcome}
use claudie.Spec.Clear.{Consumed, mutable_clusters}
use claudie.Store.{
  Bytes, ClusterState, TaskEvent, Stage, StageKind, terraformer, ansibler, kube_eleven, kuber,
  kind_eq, DbClusters,
}
use claudie.Store.Stages.{
  EnumNames, PbStage, PbKind, pb_terraformer, pb_ansibler, pb_kube_eleven, pb_kuber,
  description_value, description_name, sub_pass_to_grpc, sub_pass_from_grpc, kind_to_grpc,
  kind_from_grpc, stage_to_grpc, stage_from_grpc, convert_to_grpc_stages, convert_from_grpc_stages,
}
use claudie.Store.Convert.{
  Codec, PbTime, PbTaskEvent, event_to_grpc, event_from_grpc, convert_to_grpc_task_event,
  convert_from_grpc_task_event, convert_from_grpc_clusters, event_value, event_name,
}
use claudie.Store.RoundTrip.{IsCodec, year_10000}
use claudie.Manager.Stages.{Attempt, propagate_result, consume_head, consume_outcome}
use claudie.Manager.Process.Finish.{length-all_or_none}

-- The tasks that `Good` holds of can be written, and hold clusters that can be written.
pub record Writes (c : Codec) (Good : Task → Type 0) : Type 0 where
  pub task : (t : Task) → Good t → (b : Bytes) × (c.marshal_task t ≡ some b)
  pub clusters :
      (t : Task)
      → Good t
      → (s : Clusters) × (d : DbClusters) × (mutable_clusters t ≡ some s)
        × (convert_from_grpc_clusters c s ≡ some d)

-- These tasks consume the outcome, and stay among them.
abbrev pub Accepted : (Task → Type 0) → Outcome → Type 0
Accepted Good o =
    (t : Task) → Good t → (t' : Task) × (consume_outcome o t ≡ Consumed.ok t') × Good t'

abbrev pub IsKnown : Stage → Type 0
IsKnown s = is_some (kind_to_grpc s.kind) ≡ true

-- An event that the manager can read and that has a stage left.
pub record Ready (c : Codec) (Good : Task → Type 0) (e : TaskEvent) : Type 0 where
  pub task : Task
  pub good : Good task
  pub time : PbTime
  pub reads : c.unmarshal_task e.task ≡ some task
  pub parses : c.parse_time e.timestamp ≡ some time
  pub year : time.seconds < year_10000
  pub known : All IsKnown e.pipeline
  pub left : e.current_stage < length e.pipeline
  pub fits : length e.pipeline < 2 ^ 32

pub get_elem?-some :
    {A : Type 0} (xs : List A) (i : ℕ) → i < length xs → (x : A) × (get_elem? xs i ≡ some x)
get_elem?-some [] i h = absurd (omega arith)
get_elem?-some (x ∷ xs) zero h = (x, refl)
get_elem?-some (x ∷ xs) (suc i) h = get_elem?-some xs i (omega arith)

pub kind_eq_refl : (k : StageKind) → kind_eq k k ≡ true
kind_eq_refl (StageKind.other s) = ground (arith, eq_iff s s)
kind_eq_refl _ = refl

-- A stage of a known kind is converted, and back to a stage of a known kind.
kind_converts :
    (k : StageKind)
    → is_some (kind_to_grpc k) ≡ true
    → (p : PbKind) × (kind_to_grpc k ≡ some p) × (kind_from_grpc p ≡ some k)
kind_converts terraformer h = (pb_terraformer, refl, refl)
kind_converts ansibler h = (pb_ansibler, refl, refl)
kind_converts kube_eleven h = (pb_kube_eleven, refl, refl)
kind_converts kuber h = (pb_kuber, refl, refl)
kind_converts StageKind.unknown h = absurd (cc h)
kind_converts (StageKind.other _) h = absurd (cc h)

stage_converts :
    (c : Codec) (s : Stage)
    → IsKnown s
    → (p : PbStage) × (s' : Stage) × (stage_to_grpc c.names s ≡ some p)
      × (stage_from_grpc c.names p ≡ some s')
      × IsKnown s'
stage_converts c s h =
    let (k, to, from) = kind_converts s.kind h in
    let p : PbStage = record {
      kind = k;
      description = description_value s.description;
      sub_passes = map (sub_pass_to_grpc c.names k) s.sub_passes;
    } in
    let s' : Stage = record {
      kind = s.kind;
      description = description_name p.description;
      sub_passes = map (sub_pass_from_grpc c.names k) p.sub_passes;
    } in
    (p, s', rw (to, stage_to_grpc) refl, rw (from, stage_from_grpc) refl, h)

stages_convert :
    (c : Codec) (ss : List Stage)
    → All IsKnown ss
    → (ps : List PbStage) × (ss' : List Stage) × (convert_to_grpc_stages c.names ss ≡ some ps)
      × (convert_from_grpc_stages c.names ps ≡ some ss')
      × All IsKnown ss'
unfolding convert_to_grpc_stages convert_from_grpc_stages
stages_convert c [] h = ([], [], refl, refl, tt)
stages_convert c (s ∷ ss) (k, h) =
    let (p, s', to, from, known) = stage_converts c s k in
    let (ps, ss', tos, froms, knowns) = stages_convert c ss h in
    (p ∷ ps, s' ∷ ss', ground (arith, to, tos), ground (arith, from, froms), (known, knowns))

length-convert_to_grpc_stages :
    (n : EnumNames) (ss : List Stage) (ps : List PbStage)
    → convert_to_grpc_stages n ss ≡ some ps
    → length ps ≡ length ss
unfolding convert_to_grpc_stages
length-convert_to_grpc_stages n = length-all_or_none (stage_to_grpc n)

length-convert_from_grpc_stages :
    (n : EnumNames) (ps : List PbStage) (ss : List Stage)
    → convert_from_grpc_stages n ps ≡ some ss
    → length ss ≡ length ps
unfolding convert_from_grpc_stages
length-convert_from_grpc_stages n = length-all_or_none (stage_from_grpc n)

-- The event once the result is in its task: another event of this kind, at the same stage.
pub taken :
    (c : Codec) (l : IsCodec c) (Good : Task → Type 0) (w : Writes c Good) (o : Outcome)
    → Accepted Good o
    → (e : TaskEvent) (r : Ready c Good e) (cs : ClusterState)
    → (e' : TaskEvent) × (r' : Ready c Good e') × (propagate_result c o
          (record cs { in_flight = e ∷ [] })
        ≡ Attempt.ok (record cs { in_flight = e' ∷ [] }))
      × (e'.current_stage ≡ e.current_stage)
      × (length e'.pipeline ≡ length e.pipeline)
unfolding propagate_result consume_head convert_to_grpc_task_event convert_from_grpc_task_event
taken c l Good w o a e r cs =
    let (t', took, good) = a r.task r.good in
    let (b, wrote) = w.task t' good in
    let (ps, ss, to, from, known) = stages_convert c e.pipeline r.known in
    let len = length-convert_to_grpc_stages c.names e.pipeline ps to in
    let len' = length-convert_from_grpc_stages c.names ps ss from in
    let p : PbTaskEvent = record {
      id = e.id;
      timestamp = r.time;
      event = event_value e.type;
      task = r.task;
      description = e.description;
      pipeline = ps;
      current_stage = e.current_stage;
    } in
    let e' : TaskEvent = record {
      id = e.id;
      timestamp = c.format_time r.time;
      type = event_name p.event;
      task = b;
      description = e.description;
      pipeline = ss;
      current_stage = e.current_stage;
    } in
    let reads : event_to_grpc c e ≡ some p = rw (r.reads, r.parses, to, event_to_grpc) refl in
    let writes : event_from_grpc c (record p { task = t' }) ≡ some e' =
      rw (wrote, from, event_from_grpc) refl in
    let r' : Ready c Good e' = record {
      task = t';
      good = good;
      time = record (r.time) { nanos = 0 };
      reads = l.task t' b wrote;
      parses = l.time r.time r.year;
      year = r.year;
      known = known;
      left = omega (arith, r.left, len, len');
      fits = omega (arith, r.fits, len, len');
    } in
    (e', r', ground (arith, reads, took, writes), refl, omega (arith, len, len'))
