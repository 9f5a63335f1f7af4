-- ===== src/Examples/Codecs.antt =====
-- A codec that knows one cluster, without loadbalancers: the round trips at concrete inputs.
use claudie.Prelude.{
  ℕ, zero, suc, ◌≡◌, ◌≢◌, refl, Bool, true, ◌&&◌, List, [], ◌∷◌, Option, none, some, String,
  str_append, str_eq, str_eq-eq, arith, ap, if◌then◌else◌, is_none, Bool-cases, inl, inr, ◌∙◌,
}
use Prim.Native.String.{count}
use text.Mathlib.TextLemmas.{length-append}
use claudie.Pools.{is_empty}
use claudie.Spec.{K8sCluster, LbCluster, Clusters}
use claudie.Spec.Task.{Task, TaskState}
use claudie.Store.{Bytes, TaskEvent, event_update, kuber, error_fatal}
use claudie.Store.Stages.{PbStage, pb_kuber, fatal, EnumNames, convert_from_grpc_stages}
use claudie.Store.Convert.{
  Codec, PbTaskEvent, update, convert_to_grpc_task_event, convert_from_grpc_task_event,
  convert_from_grpc_clusters, convert_to_grpc_clusters,
}
use claudie.Store.RoundTrip.{
  IsCodec, convert_task_event_round_trip, convert_clusters_round_trip, kept,
}
use claudie.Examples.Data.{k8s}

abbrev pub plain : K8sCluster
plain = record k8s { cluster_info = record (k8s.cluster_info) { node_pools = [] } }

abbrev pub is_plain : K8sCluster → Bool
is_plain k =
    (((str_eq k.cluster_info.name "prod" && str_eq k.cluster_info.hash "abc")
        && (is_empty k.cluster_info.node_pools && str_eq k.network "192.168.2.0/24"))
      && (str_eq k.kubeconfig "" && str_eq k.kubernetes "1.31"))
    && is_none k.installation_proxy

is_empty-eq : {A : Type 0} (xs : List A) → is_empty xs ≡ true → xs ≡ []
is_empty-eq [] e = refl
is_empty-eq (_ ∷ _) e = absurd (cc e)

is_none-eq : {A : Type 0} (o : Option A) → is_none o ≡ true → o ≡ none
is_none-eq none e = refl
is_none-eq (some _) e = absurd (cc e)

is_plain-eq : (k : K8sCluster) → is_plain k ≡ true → k ≡ plain
is_plain-eq k e =
    let a : k.cluster_info.name ≡ "prod" = str_eq-eq _ _ (ground arith) in
    let b : k.cluster_info.hash ≡ "abc" = str_eq-eq _ _ (ground arith) in
    let c : k.cluster_info.node_pools ≡ [] = is_empty-eq _ (ground arith) in
    let d : k.network ≡ "192.168.2.0/24" = str_eq-eq _ _ (ground arith) in
    let f : k.kubeconfig ≡ "" = str_eq-eq _ _ (ground arith) in
    let g : k.kubernetes ≡ "1.31" = str_eq-eq _ _ (ground arith) in
    let h : k.installation_proxy ≡ none = is_none-eq _ (ground arith) in
    ground (arith, a, b, c, d, f, g, h)

abbrev pub plain_state : TaskState
plain_state = record { k8s = some plain; load_balancers = [] }

abbrev marshal_k8s : Option K8sCluster → Option Bytes
marshal_k8s none = some []
marshal_k8s (some k) = if is_plain k then some (1 ∷ []) else none

abbrev marshal_lbs : List LbCluster → Option Bytes
marshal_lbs [] = some []
marshal_lbs (_ ∷ _) = none

abbrev marshal_state : Option K8sCluster → List LbCluster → Option Bytes
marshal_state (some k) [] = if is_plain k then some (2 ∷ []) else none
marshal_state _ _ = none

abbrev marshal_task : Task → Option Bytes
marshal_task (Task.create s) = marshal_state s.k8s s.load_balancers
marshal_task _ = none

abbrev ones : ℕ → String
ones zero = ""
ones (suc n) = str_append "1" (ones n)

abbrev pub names : EnumNames
names = record { kind_value = λ k s. count s; kind_name = λ k n. ones n }

abbrev pub codec : Codec
codec = record {
  marshal_task = marshal_task;
  unmarshal_task = λ b. some (Task.create plain_state);
  marshal_k8s = marshal_k8s;
  unmarshal_k8s = λ b. some plain;
  marshal_lbs = marshal_lbs;
  unmarshal_lbs = λ b. some [];
  format_time = λ t. ones t.seconds;
  parse_time = λ s. some (record { seconds = count s; nanos = 0 });
  names = names;
}

count-ones : (n : ℕ) → count (ones n) ≡ n
count-ones zero = refl
count-ones (suc n) = length-append "1" (ones n) ∙ omega (arith, count-ones n)

create_back :
    (s : TaskState) (b : Bytes)
    → marshal_task (Task.create s) ≡ some b
    → some (Task.create plain_state) ≡ some (Task.create s)
create_back s b e = by s.k8s s.load_balancers e
  where
    by :
        (k : Option K8sCluster) (l : List LbCluster)
        → marshal_state k l ≡ some b
        → some (Task.create plain_state)
          ≡ some (Task.create (record { k8s = k; load_balancers = l }))
    by none l f = absurd (cc f)
    by (some k) (_ ∷ _) f = absurd (cc f)
    by (some k) [] f = elim (Bool-cases (is_plain k)) [
      | inl p ↦ rw (is_plain-eq k p) refl
      | inr p ↦ absurd (ground arith)
    ]

task_back :
    (t : Task) (b : Bytes) → marshal_task t ≡ some b → some (Task.create plain_state) ≡ some t
task_back Task.unset b e = absurd (cc e)
task_back (Task.create s) b e = create_back s b e
task_back (Task.update _ _) b e = absurd (cc e)
task_back (Task.delete _) b e = absurd (cc e)

k8s_back :
    (k : K8sCluster) (b : Bytes) → marshal_k8s (some k) ≡ some b → (b ≢ []) × (some plain ≡ some k)
k8s_back k b e = elim (Bool-cases (is_plain k)) [
  | inl p ↦ (λ f. absurd (ground (arith, f)), rw (is_plain-eq k p) refl)
  | inr p ↦ absurd (ground arith)
]

lbs_back : (l : List LbCluster) (b : Bytes) → marshal_lbs l ≡ some b → b ≡ []
lbs_back [] b e = ground arith
lbs_back (_ ∷ _) b e = absurd (cc e)

no_lbs : (l : List LbCluster) (b : Bytes) → marshal_lbs l ≡ some b → l ≡ []
no_lbs [] b e = refl
no_lbs (_ ∷ _) b e = absurd (cc e)

pub codec-IsCodec : IsCodec codec
codec-IsCodec = record {
  task = task_back;
  k8s = k8s_back;
  no_k8s = λ b e. ground arith;
  lbs = λ l b e. rw (lbs_back l b e, no_lbs l b e) refl;
  time = λ t early. ap (λ n. some (record { seconds = n; nanos = 0 })) (count-ones t.seconds);
}

abbrev pub stage : PbStage
stage = record {
  kind = pb_kuber;
  description = record { about = "kuber"; error_level = fatal };
  sub_passes =
      record { kind = 3; description = record { about = "patch"; error_level = fatal } } ∷ [];
}

abbrev pub pb_event : PbTaskEvent
pb_event = record {
  id = "task-1";
  timestamp = record { seconds = 5; nanos = 0 };
  event = update;
  task = Task.create plain_state;
  description = "adding";
  pipeline = stage ∷ [];
  current_stage = 0;
}

abbrev pub event : TaskEvent
event = record {
  id = "task-1";
  timestamp = "11111";
  type = event_update;
  task = 2 ∷ [];
  description = "adding";
  pipeline =
      record {
        kind = kuber;
        description = record { about = "kuber"; error_level = error_fatal };
        sub_passes =
            record {
              kind = "111";
              description = record { about = "patch"; error_level = error_fatal };
            }
            ∷ [];
      }
      ∷ [];
  current_stage = 0;
}

-- A quarter of a second later, which the database does not keep.
abbrev pub later_event : PbTaskEvent
later_event = record pb_event { timestamp = record { seconds = 5; nanos = 250000000 } }

pub written : convert_from_grpc_task_event codec (later_event ∷ []) ≡ some (event ∷ [])
unfolding convert_from_grpc_task_event convert_from_grpc_stages
written = refl

convert_task_event_round_trip_example :
    convert_to_grpc_task_event codec (event ∷ []) ≡ some (pb_event ∷ [])
convert_task_event_round_trip_example =
    convert_task_event_round_trip codec codec-IsCodec (later_event ∷ []) (event ∷ [])
      ((((refl, tt), tt), omega arith), tt) written

abbrev clusters : Clusters
clusters = record { k8s = some plain; load_balancers = [] }

stored :
    convert_from_grpc_clusters codec clusters ≡ some (record { k8s = 1 ∷ []; load_balancers = [] })
unfolding convert_from_grpc_clusters
stored = refl

convert_clusters_round_trip_example :
    convert_to_grpc_clusters codec (record { k8s = 1 ∷ []; load_balancers = [] })
    ≡ some (kept clusters)
convert_clusters_round_trip_example =
    convert_clusters_round_trip codec codec-IsCodec clusters
      (record { k8s = 1 ∷ []; load_balancers = [] }) stored
