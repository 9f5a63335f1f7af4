-- ===== src/Store/RoundTrip.antt =====
-- What is written to the database is read back: events and clusters.
use claudie.Prelude.{
  ◌<◌, ℕ, ◌≡◌, ◌≢◌, refl, List, [], ◌∷◌, Option, none, some, map, ap, arith, Option-cases, inl, inr,
  All, ap₂, ◌∙◌,
}
use claudie.Spec.{K8sCluster, LbCluster, Clusters}
use claudie.Spec.Task.{Task}
use claudie.Store.{Bytes, DbClusters, TaskEvent, Stage}
use claudie.Store.Stages.{
  PbKind, unset, PbSubPass, PbStage, fatal, warn, PbLevel, PbDescription, description_value,
  description_name, EnumNames, level_value, level_name, sub_pass_to_grpc, sub_pass_from_grpc,
  stage_to_grpc, stage_from_grpc, all_or_none, convert_to_grpc_stages, convert_from_grpc_stages,
}
use claudie.Store.Convert.{
  Codec, PbTime, PbTaskEvent, PbEvent, unknown, event_value, event_name, event_to_grpc,
  event_from_grpc, convert_to_grpc_task_event, convert_from_grpc_task_event,
  convert_from_grpc_clusters, convert_to_grpc_clusters, clusters_to_grpc, lbs_to_grpc,
}

-- The first second of the year 10000. The layout RFC3339 has four digits for the year.
abbrev pub year_10000 : ℕ
year_10000 = 253402300800

-- What Marshal, Unmarshal and the layout RFC3339 document: the layout has no part of a second. Only an unset message, or one with
-- every field unset, has no bytes.
pub record IsCodec (c : Codec) : Type 0 where
  pub task : (t : Task) (b : Bytes) → c.marshal_task t ≡ some b → c.unmarshal_task b ≡ some t
  pub k8s :
      (k : K8sCluster) (b : Bytes)
      → c.marshal_k8s (some k) ≡ some b
      → (b ≢ []) × (c.unmarshal_k8s b ≡ some k)
  pub no_k8s : (b : Bytes) → c.marshal_k8s none ≡ some b → b ≡ []
  pub lbs : (l : List LbCluster) (b : Bytes) → c.marshal_lbs l ≡ some b → lbs_to_grpc c b ≡ some l
  pub time :
      (t : PbTime)
      → t.seconds < year_10000
      → c.parse_time (c.format_time t) ≡ some (record t { nanos = 0 })

-- The kind of each sub pass is one that the enum of its stage declares.
abbrev pub IsNamedStage : EnumNames → PbStage → Type 0
IsNamedStage names st =
    All (λ p. names.kind_value st.kind (names.kind_name st.kind p.kind) ≡ p.kind) st.sub_passes

-- An event of declared kinds only, from before the year 10000.
abbrev pub IsWritable : EnumNames → PbTaskEvent → Type 0
IsWritable names te = All (IsNamedStage names) te.pipeline × (te.timestamp.seconds < year_10000)

-- What is written of each element is read back as `k` of it.
all_or_none_back :
    {A B : Type 0} (P : A → Type 0) (k : A → A) (f : A → Option B) (g : B → Option A)
    → ((x : A) (y : B) → P x → f x ≡ some y → g y ≡ some (k x))
    → (xs : List A) (ys : List B) → All P xs
    → all_or_none f xs ≡ some ys
    → all_or_none g ys ≡ some (map k xs)
all_or_none_back P k f g back [] [] h e = refl
all_or_none_back P k f g back [] (y ∷ ys) h e = absurd (cc e)
all_or_none_back P k f g back (x ∷ xs) ys h e = elim (Option-cases (f x)) [
  | inl n ↦ absurd (ground arith)
  | inr (y, n) ↦ elim (Option-cases (all_or_none f xs)) [
    | inl m ↦ absurd (ground arith)
    | inr (zs, m) ↦
        let split : y ∷ zs ≡ ys = ground arith in
        rw (← split) (rw (back x y h.0 n, all_or_none_back P k f g back xs zs h.1 m, all_or_none))
  ]
]

map-same : {A : Type 0} (xs : List A) → map (λ x. x) xs ≡ xs
map-same [] = refl
map-same (x ∷ xs) = ap (◌∷◌ x) (map-same xs)

level_back : (l : PbLevel) → level_value (level_name l) ≡ l
level_back fatal = refl
level_back warn = refl

description_back : (d : PbDescription) → description_value (description_name d) ≡ d
description_back d = ap (λ l. record d { error_level = l }) (level_back d.error_level)

sub_passes_back :
    (names : EnumNames) (k : PbKind) (ps : List PbSubPass)
    → All (λ p. names.kind_value k (names.kind_name k p.kind) ≡ p.kind) ps
    → map (sub_pass_to_grpc names k) (map (sub_pass_from_grpc names k) ps) ≡ ps
sub_passes_back names k [] h = refl
sub_passes_back names k (p ∷ ps) h =
    ap₂ ◌∷◌ (ap₂ (λ n d. record { kind = n; description = d }) h.0 (description_back p.description))
      (sub_passes_back names k ps h.1)

-- By the kind that is set, with the rest of the stage.
stage_back :
    (names : EnumNames) (k : PbKind) (d : PbDescription) (ps : List PbSubPass) (db : Stage)
    → All (λ p. names.kind_value k (names.kind_name k p.kind) ≡ p.kind) ps
    → stage_from_grpc names (record { kind = k; description = d; sub_passes = ps }) ≡ some db
    → stage_to_grpc names db ≡ some (record { kind = k; description = d; sub_passes = ps })
stage_back names unset d ps db h e = absurd (cc e)
stage_back names k d ps db h e = ground (arith, description_back d, sub_passes_back names k ps h)

stages_back :
    (names : EnumNames) (xs : List PbStage) (ys : List Stage)
    → All (IsNamedStage names) xs
    → convert_from_grpc_stages names xs ≡ some ys
    → convert_to_grpc_stages names ys ≡ some xs
unfolding convert_from_grpc_stages convert_to_grpc_stages
stages_back names xs ys h e =
    all_or_none_back (IsNamedStage names) (λ st. st) (stage_from_grpc names) (stage_to_grpc names)
      (λ st db h e. stage_back names st.kind st.description st.sub_passes db h e) xs ys h e
    ∙ ap some (map-same xs)

event_back : (e : PbEvent) → event_value (event_name e) ≡ e
event_back unknown = refl
event_back _ = refl

-- The event with the part of a second of its time gone.
abbrev pub to_the_second : PbTaskEvent → PbTaskEvent
to_the_second te = record te { timestamp = record (te.timestamp) { nanos = 0 } }

task_event_back :
    (c : Codec) (l : IsCodec c) (te : PbTaskEvent) (db : TaskEvent)
    → IsWritable c.names te
    → event_from_grpc c te ≡ some db
    → event_to_grpc c db ≡ some (to_the_second te)
task_event_back c l te db h e = elim (Option-cases (c.marshal_task te.task)) [
  | inl n ↦ absurd (ground arith)
  | inr (b, n) ↦ elim (Option-cases (convert_from_grpc_stages c.names te.pipeline)) [
    | inl m ↦ absurd (ground arith)
    | inr (ys, m) ↦ ground (
      arith,
      l.task te.task b n,
      l.time te.timestamp h.1,
      stages_back c.names te.pipeline ys h.0 m,
      event_back te.event,
    )
  ]
]

-- A task event that is written to the database, with all events of a lower priority behind it, is
-- read back as it was, each time cut to the second, if its sub
-- passes are of declared kinds and no time is from the year 10000 or later.
pub convert_task_event_round_trip :
    (c : Codec)
    → IsCodec c
    → (es : List PbTaskEvent) (db : List TaskEvent) → All (IsWritable c.names) es
    → convert_from_grpc_task_event c es ≡ some db
    → convert_to_grpc_task_event c db ≡ some (map to_the_second es)
unfolding convert_from_grpc_task_event convert_to_grpc_task_event
convert_task_event_round_trip c l =
    all_or_none_back (IsWritable c.names) to_the_second (event_from_grpc c) (event_to_grpc c)
      (task_event_back c l)

-- What the database keeps of a state: without a kubernetes cluster, no loadbalancers either.
abbrev pub kept : Clusters → Clusters
kept cs = record cs { load_balancers = elim cs.k8s [ none ↦ [] | some _ ↦ cs.load_balancers ] }

clusters_back :
    (c : Codec) (l : IsCodec c) (k : Option K8sCluster) (ls : List LbCluster) (kb lb : Bytes)
    → c.marshal_k8s k ≡ some kb
    → c.marshal_lbs ls ≡ some lb
    → clusters_to_grpc c kb lb ≡ some (kept (record { k8s = k; load_balancers = ls }))
clusters_back c l none ls kb lb e f = rw (l.no_k8s kb e) refl
clusters_back c l (some k) ls [] lb e f = absurd ((l.k8s k [] e).0 refl)
clusters_back c l (some k) ls (b ∷ bs) lb e f = rw ((l.k8s k (b ∷ bs) e).1) (rw (l.lbs ls lb f))

-- The clusters that are written to the database are read back as they were, except that the
-- loadbalancers are gone if there is no kubernetes cluster.
pub convert_clusters_round_trip :
    (c : Codec)
    → IsCodec c
    → (cs : Clusters) (d : DbClusters) → convert_from_grpc_clusters c cs ≡ some d
    → convert_to_grpc_clusters c d ≡ some (kept cs)
unfolding convert_from_grpc_clusters convert_to_grpc_clusters
convert_clusters_round_trip c l cs d e = elim (Option-cases (c.marshal_k8s cs.k8s)) [
  | inl n ↦ absurd (ground arith)
  | inr (kb, n) ↦ elim (Option-cases (c.marshal_lbs cs.load_balancers)) [
    | inl m ↦ absurd (ground arith)
    | inr (lb, m) ↦
        let same : record { k8s = kb; load_balancers = lb } ≡ d = ground arith in
        rw (← same) (clusters_back c l cs.k8s cs.load_balancers kb lb n m)
  ]
]
