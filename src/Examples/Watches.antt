-- ===== src/Examples/Watches.antt =====
-- Documents that the loops visit: witnesses.
use claudie.Prelude.{
  ◌≡◌, ◌≢◌, ◌↔◌, refl, true, false, List, [], ◌∷◌, none, some, String, lookup, keys, contains,
  if◌then◌else◌, erase, Distinct,
}
use claudie.Manifest.{known, State, valid_state_transition_string}
use claudie.Store.{Config, ClusterState, Status, done, error, in_progress}
use claudie.Store.Mongo.{mongo_store, mongo_store-IsLocking}
use claudie.Store.Stages.{convert_to_grpc_stages}
use claudie.Manager.Messages.{Msg}
use claudie.Manager.Scheduled.{Nats, Pass, watch_scheduled, moved}
use claudie.Manager.Scheduled.Counts.{some_errored}
use claudie.Manager.Scheduled.Ends.{watch_scheduled_settled, watch_scheduled_open}
use claudie.Manager.Idle.{idle, move, remove}
use claudie.Manager.Idle.Purge.{idle_removes, idle_moves, unless_destroyed}
use claudie.Examples.Codecs.{codec, event}
use claudie.Examples.Tables.{table, table-IsCollection, doc_with}
use claudie.Examples.Messages.{wire}

-- A queue that takes every message.
abbrev nats : Nats
nats = record { Queue = List Msg; publish = λ q m. (m ∷ q, some false) }

abbrev cluster : Status → ClusterState
cluster s = record {
  current = record { k8s = []; load_balancers = [] };
  in_flight = event ∷ [];
  state = record {
    status = s;
    description = "";
    timestamp = "";
    previous = [];
    ticks_until_refresh = 30;
  };
  scale_up_failed = [];
}

abbrev ended : Config
ended = doc_with (known State.scheduled) (("prod", cluster done) ∷ ("dev", cluster error) ∷ [])

abbrev open_one : Config
open_one =
    doc_with (known State.scheduled) (("prod", cluster in_progress) ∷ ("dev", cluster error) ∷ [])

watch_scheduled_settled_example :
    (p : Pass (mongo_store table) nats codec wire) × (watch_scheduled
        (mongo_store table)
        nats
        codec
        wire
        "now"
        (("main", ended) ∷ [])
        []
        ended
      ≡ some p)
    × (p.queue ≡ [])
    × (p.db
        ≡ ((mongo_store table).update_config (("main", ended) ∷ []) (
            moved
              (mongo_store table)
              nats
              codec
              wire
              "now"
              (if some_errored ended.clusters then State.error else State.done)
              ended)).0)
watch_scheduled_settled_example =
    watch_scheduled_settled (mongo_store table) nats codec wire "now" (("main", ended) ∷ []) []
      ended refl refl

abbrev left : Pass (mongo_store table) nats codec wire
left = record {
  db = ("main", open_one) ∷ [];
  queue = [];
  doc = open_one;
  clusters_done = 1;
  any_error = true;
}

pass_open :
    watch_scheduled (mongo_store table) nats codec wire "now" (("main", open_one) ∷ []) [] open_one
    ≡ some left
unfolding watch_scheduled convert_to_grpc_stages
pass_open = refl

watch_scheduled_open_example : left.doc.manifest ≡ open_one.manifest
watch_scheduled_open_example =
    watch_scheduled_open (mongo_store table) nats codec wire
      (mongo_store-IsLocking table table-IsCollection) "now" (("main", open_one) ∷ []) [] open_one
      left refl pass_open

abbrev deleted : Config
deleted =
    let d = doc_with (known State.done) [] in
    record d { manifest = record (d.manifest) { checksum = none; last_applied_checksum = none } }

idle_removes_example : (idle "now" deleted ≡ remove) ↔ (
    (deleted.manifest.state ≡ known State.done)
    × (deleted.manifest.checksum ≡ none)
    × (deleted.manifest.last_applied_checksum ≡ none))
idle_removes_example = idle_removes "now" deleted

abbrev destroyed : ClusterState
destroyed = record (cluster done) { in_flight = [] }

abbrev changed : Config
changed =
    let d = doc_with (known State.done) (("prod", cluster done) ∷ ("dev", destroyed) ∷ []) in
    record d { manifest = record (d.manifest) { checksum = some (2 ∷ []) } }

abbrev pending_again : Config
pending_again =
    let d = doc_with (known State.pending) (("prod", cluster done) ∷ []) in
    record d {
      manifest = record (d.manifest) { checksum = some (2 ∷ []); state_timestamp = "now" };
    }

run_changed : idle "now" changed ≡ move pending_again
unfolding idle valid_state_transition_string erase
run_changed = refl

distinct : Distinct (keys changed.clusters)
unfolding contains
distinct = (refl, (refl, tt))

idle_moves_example :
    (changed.manifest.last_applied_checksum ≢ changed.manifest.checksum)
    × (changed.manifest.state ≢ known State.scheduled)
    × (pending_again.manifest.state ≡ known State.pending)
    × (pending_again.version ≡ changed.version)
    × ((name : String)
        → lookup name pending_again.clusters ≡ unless_destroyed (lookup name changed.clusters))
idle_moves_example = idle_moves "now" changed pending_again distinct run_changed
