-- ===== src/Manager/Pending.antt =====
-- services/manager/internal/service/watchers.go: WatchForPendingDocuments. createDesiredState is a
-- parameter. Logging is left out.
pub mod Applies
use claudie.Prelude.{
  ℕ, Bool, true, false, List, [], ◌∷◌, Option, none, some, String, Dict, if◌then◌else◌,
}
use claudie.Manifest.{State, scheduled, known, valid_state_transition}
use claudie.Spec.{Clusters}
use claudie.Store.{Store, Config, Reply, ok, missing, broken}
use claudie.Store.Convert.{Codec, PbTime}
use claudie.Store.States.{PbConfig, PbClusterState, convert_to_grpc, convert_from_grpc}
use claudie.Manager.Reconcile.{ScheduleResult, reschedule, no_reschedule, noop, not_ready, Planner}
use claudie.Manager.Reconcile.Final.{reconciliate}

-- What becomes of a document: it is left alone, or written, or the service panics.
pub data Pending : Type 0 where
  skip panics : Pending
  write : PbConfig → Pending

-- The `switch result`
abbrev pub after : PbTime → ScheduleResult → PbConfig → Pending
after now noop doc = skip
after now not_ready doc = write doc
after now reschedule doc = write (record doc {
  manifest = record (doc.manifest) { state = scheduled; state_timestamp = some now };
})
after now no_reschedule doc = write (record doc {
  manifest = record (doc.manifest) {
    state = scheduled;
    state_timestamp = some now;
    last_applied_checksum = doc.manifest.checksum;
  };
})

module _ (p : Planner) (create_desired_state : PbConfig → Option (Dict Clusters))
    (now : PbTime) where
  -- The loop's body, from the conversion to gRPC to the one from it.
  unfoldable pub pending : PbConfig → Pending
  unfolding valid_state_transition reconciliate
  pending doc = elim (create_desired_state doc) [
    | none ↦ skip
    | some desired ↦
        if valid_state_transition doc.manifest.state scheduled
        then elim (reconciliate p doc.clusters desired) [
          | none ↦ panics
          | some (clusters, r) ↦ after now r (record doc { clusters = clusters })
        ]
        else skip
  ]

  module _ (st : Store) (c : Codec) (now_text : String) where
    abbrev pub write_doc : st.Db → Pending → Option st.Db
    write_doc db skip = some db
    write_doc db panics = none
    write_doc db (write doc) = elim (convert_from_grpc c now_text doc) [
      | none ↦ some db
      | some doc' ↦ some (st.update_config db doc').0
    ]

    abbrev pub visit_doc : st.Db → Config → Option st.Db
    visit_doc db cfg = elim (convert_to_grpc c cfg) [
      | none ↦ some db
      | some doc ↦ write_doc db (pending doc)
    ]

    unfoldable pub visit_docs : st.Db → List Config → Option st.Db
    unfolding pending convert_from_grpc convert_to_grpc
    visit_docs db [] = some db
    visit_docs db (cfg ∷ cfgs) = elim (visit_doc db cfg) [
      | none ↦ none
      | some db' ↦ visit_docs db' cfgs
    ]

    -- `WatchForPendingDocuments`: the database, and whether an error is returned.
    unfoldable pub watch_pending : st.Db → Option (st.Db × Bool)
    unfolding visit_docs
    watch_pending db = elim (st.list_configs db (known State.pending ∷ [])) [
      | ok cfgs ↦ elim (visit_docs db cfgs) [ none ↦ none | some db' ↦ some (db', true) ]
      | missing ↦ some (db, false)
      | broken ↦ some (db, false)
    ]
