-- ===== src/Examples/Warnings.antt =====
-- An error that is only a warning, at the last stage of the only task: witnesses.
use claudie.Prelude.{◌≡◌, refl, [], ◌∷◌, some, lookup, insert, arith}
use claudie.Manifest.{known, State}
use claudie.Store.{Config, ClusterState, TaskEvent, Stage, Reply, error, done, error_warn, kuber}
use claudie.Store.Convert.{convert_to_grpc_task_event, convert_from_grpc_clusters}
use claudie.Store.Stages.{convert_to_grpc_stages}
use claudie.Store.Locking.{raised}
use claudie.Store.Mongo.{mongo_store, get_config, update_config}
use claudie.Manager.Stages.{advance_to_next_stage}
use claudie.Manager.Counters.{populate_task_error_counters, populate_task_success_counters}
use claudie.Manager.Process.{
  commit, discard, handle, process_task, counted, remember, crashed, with_cluster,
}
use claudie.Manager.Process.Warned.{process_task_panics}
use claudie.Examples.Codecs.{codec, event}
use claudie.Examples.Tables.{table, doc_with}
use claudie.Examples.Processing.{around, cluster, last, failure}

abbrev warned : Stage
warned = record last { description = record { about = "kuber"; error_level = error_warn } }

abbrev warned_event : TaskEvent
warned_event = record event { pipeline = warned ∷ [] }

abbrev before : ClusterState
before = record cluster { in_flight = warned_event ∷ [] }

abbrev after : ClusterState
after = record before {
  current = record { k8s = 1 ∷ []; load_balancers = [] };
  in_flight = [];
  state = record {
    status = done;
    description = "";
    timestamp = "";
    previous =
        record { status = error; stage = kuber; task_description = "adding"; timestamp = "now" }
        ∷ [];
    ticks_until_refresh = 30;
  };
}

abbrev im : Config
im = doc_with (known State.scheduled) (("prod", before) ∷ [])

abbrev new_im : Config
new_im = with_cluster (mongo_store table) codec around "prod" after im

found : (mongo_store table).get_config (("main", im) ∷ []) "main" ≡ Reply.ok im
unfolding get_config lookup
found = refl

has_prod : lookup "prod" im.clusters ≡ some before
unfolding lookup
has_prod = refl

run : handle codec around failure before ≡ commit after
unfolding handle counted convert_to_grpc_task_event convert_to_grpc_stages advance_to_next_stage
    convert_from_grpc_clusters remember populate_task_error_counters populate_task_success_counters
run = refl

saved :
    (mongo_store table).update_config (("main", im) ∷ []) new_im
    ≡ (("main", raised new_im) ∷ [], Reply.ok (raised new_im))
unfolding update_config lookup insert
saved = refl

process_task_panics_example :
    (process_task (mongo_store table) codec around (("main", im) ∷ []) failure
      ≡ (("main", raised new_im) ∷ [], crashed))
    × (after.in_flight ≡ [])
    × (handle codec around failure after ≡ discard)
process_task_panics_example =
    process_task_panics codec around (mongo_store table) (("main", im) ∷ [])
      (("main", raised new_im) ∷ []) failure im (raised new_im) warned_event warned "boom" before
      after found has_prod refl refl refl refl refl refl refl (omega arith) run saved
