-- ===== src/Examples/Processing.antt =====
-- Messages that the manager handles: witnesses.
use claudie.Prelude.{◌≡◌, refl, [], ◌∷◌, none, some, lookup, arith, str_eq-ne, inr}
use claudie.Manifest.{known, State}
use claudie.Spec.{Clusters}
use claudie.Spec.Task.{Task, TaskResult, none_result, fatal, Outcome}
use claudie.Spec.Clear.{Consumed, mutable_clusters}
use claudie.Store.{
  Config, ClusterState, Stage, kuber, kube_eleven, in_progress, Reply, error, done, error_fatal,
}
use claudie.Store.Convert.{
  convert_to_grpc_task_event, convert_from_grpc_task_event, convert_from_grpc_clusters,
  event_to_grpc,
}
use claudie.Store.Stages.{convert_to_grpc_stages, convert_from_grpc_stages}
use claudie.Store.Mongo.{mongo_store, get_config}
use claudie.Manager.Stages.{propagate_result, advance_to_next_stage, consume_outcome}
use claudie.Manager.Counters.{populate_task_error_counters, populate_task_success_counters}
use claudie.Manager.Process.{
  Work, Around, commit, discard, handle, process_task, ack, counted, remember,
}
use claudie.Manager.Process.Stale.{process_task_stale}
use claudie.Manager.Process.History.{Commits, ShortState, handle-Short}
use claudie.Manager.Process.Again.{handle_again}
use claudie.Manager.Process.Errored.{IsFatal, handle_fatal}
use claudie.Manager.Process.Finish.{Finished, handle_finish}
use claudie.Examples.Codecs.{codec, codec-IsCodec, event, pb_event, plain_state, plain}
use claudie.Examples.Tables.{table, doc_with}

abbrev pub around : Around
around = record { now = "now"; new_uuid = "task-2"; ticks = 30 }

abbrev pub cluster : ClusterState
cluster = record {
  current = record { k8s = []; load_balancers = [] };
  in_flight = event ∷ [];
  state = record {
    status = in_progress;
    description = "adding";
    timestamp = "";
    previous = [];
    ticks_until_refresh = 30;
  };
  scale_up_failed = [];
}

abbrev success : TaskResult
success = record { error = none; result = none_result }

abbrev work : Work
work = record {
  input_manifest = "main";
  cluster = "prod";
  task_id = "task-1";
  task_stage = 0;
  stage = kuber;
  result = success;
}

abbrev stale_work : Work
stale_work = record work { stage = kube_eleven }

abbrev im : Config
im = doc_with (known State.scheduled) (("prod", cluster) ∷ [])

abbrev pub last : Stage
last = record {
  kind = kuber;
  description = record { about = "kuber"; error_level = error_fatal };
  sub_passes =
      record { kind = "111"; description = record { about = "patch"; error_level = error_fatal } }
      ∷ [];
}

found : (mongo_store table).get_config (("main", im) ∷ []) "main" ≡ Reply.ok im
unfolding get_config lookup
found = refl

has_prod : lookup "prod" im.clusters ≡ some cluster
unfolding lookup
has_prod = refl

process_task_stale_example :
    process_task (mongo_store table) codec around (("main", im) ∷ []) stale_work
    ≡ (("main", im) ∷ [], ack)
process_task_stale_example =
    process_task_stale (mongo_store table) codec around (("main", im) ∷ []) stale_work im cluster
      event [] last found has_prod refl refl (inr (inr (λ e. absurd (cc e))))

handle-Short_example : Commits ShortState (handle codec around work cluster)
handle-Short_example = handle-Short codec around work cluster (omega arith)

abbrev finished : ClusterState
finished = record cluster {
  current = record { k8s = 1 ∷ []; load_balancers = [] };
  in_flight = [];
  state = record {
    status = done;
    description = "";
    timestamp = "";
    previous =
        record { status = done; stage = kuber; task_description = "adding"; timestamp = "now" }
        ∷ [];
    ticks_until_refresh = 30;
  };
}

run : handle codec around work cluster ≡ commit finished
unfolding handle propagate_result convert_to_grpc_task_event convert_to_grpc_stages
    convert_from_grpc_task_event convert_from_grpc_stages advance_to_next_stage
    convert_from_grpc_clusters remember populate_task_success_counters
run = refl

handle_again_example : handle codec around work finished ≡ discard
handle_again_example =
    handle_again codec around work cluster finished refl (str_eq-ne "task-2" "task-1" refl) tt run

abbrev clusters : Clusters
clusters = record { k8s = some plain; load_balancers = [] }

reads : event_to_grpc codec event ≡ some pb_event
unfolding convert_to_grpc_stages
reads = refl

takes :
    consume_outcome none_result (Task.create plain_state) ≡ Consumed.ok (Task.create plain_state)
unfolding consume_outcome
takes = refl

holds : mutable_clusters (Task.create plain_state) ≡ some clusters
unfolding mutable_clusters
holds = refl

handle_finish_example : Finished codec clusters finished
handle_finish_example =
    handle_finish codec codec-IsCodec around work event pb_event (Task.create plain_state) clusters
      last cluster finished refl refl refl refl refl refl (omega arith) reads takes holds run

abbrev pub failure : Work
failure = record work { result = record { error = some (fatal, "boom"); result = Outcome.unset } }

is_fatal : IsFatal codec around failure cluster "boom"
is_fatal = record {
  event = event;
  behind = [];
  stage = last;
  now = refl;
  meant = refl;
  at = refl;
  kind = refl;
  level = refl;
  reported = refl;
}

counts : counted codec around cluster ≡ some []
unfolding counted convert_to_grpc_task_event convert_to_grpc_stages populate_task_error_counters
counts = refl

handle_fatal_example :
    (cs' cs'' : ClusterState) × (handle codec around failure cluster ≡ commit cs')
    × (cs'.in_flight ≡ event ∷ [])
    × (cs'.state.status ≡ error)
    × (cs'.state.description ≡ "boom")
    × (cs'.scale_up_failed ≡ [])
    × (handle codec around failure cs' ≡ commit cs'')
    × (cs''.in_flight ≡ event ∷ [])
    × (cs''.scale_up_failed ≡ [])
handle_fatal_example = handle_fatal codec around failure cluster "boom" [] is_fatal counts
