-- ===== src/Examples/Running.antt =====
-- Tasks that run to their end, and credentials that are updated: witnesses.
use claudie.Prelude.{◌≡◌, refl, [], ◌∷◌, some, arith}
use claudie.Spec.Task.{Task, none_result}
use claudie.Spec.Clear.{mutable_clusters}
use claudie.Store.{TaskEvent, ClusterState}
use claudie.Store.Convert.{convert_from_grpc_clusters}
use claudie.Manager.Stages.{consume_outcome}
use claudie.Manager.Process.Run.{run}
use claudie.Manager.Process.Run.Ready.{Writes, Accepted, Ready}
use claudie.Manager.Process.Run.Ends.{run_ends, Ended}
use claudie.Examples.Codecs.{codec, codec-IsCodec, event, plain_state, plain}
use claudie.Examples.Processing.{around, cluster, last}

abbrev Good : Task → Type 0
Good t = t ≡ Task.create plain_state

abbrev two_stages : TaskEvent
two_stages = record event { pipeline = last ∷ last ∷ [] }

two_stages-Ready : Ready codec Good two_stages
two_stages-Ready = record {
  task = Task.create plain_state;
  good = refl;
  time = record { seconds = 5; nanos = 0 };
  reads = refl;
  parses = refl;
  year = omega arith;
  known = (refl, (refl, tt));
  left = omega arith;
  fits = omega arith;
}

codec-Writes : Writes codec Good
unfolding mutable_clusters convert_from_grpc_clusters
codec-Writes = record {
  task = λ t g. (2 ∷ [], rw g refl);
  clusters = λ t g. (
    record { k8s = some plain; load_balancers = [] },
    record { k8s = 1 ∷ []; load_balancers = [] },
    rw g refl,
    refl,
  );
}

unchanged : Accepted Good none_result
unfolding consume_outcome
unchanged t g = (t, refl, g)

run_ends_example :
    (cs' : ClusterState) × (run codec around
        (none_result ∷ none_result ∷ [])
        (record cluster { in_flight = two_stages ∷ [] })
      ≡ some cs')
    × Ended cs'
run_ends_example =
    run_ends codec around codec-IsCodec Good codec-Writes (none_result ∷ none_result ∷ [])
      two_stages cluster two_stages-Ready (unchanged, (unchanged, tt)) refl
