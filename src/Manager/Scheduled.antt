-- ===== src/Manager/Scheduled.antt =====
-- services/manager/internal/service/watchers.go: WatchForScheduledDocuments. The JetStream client
-- is a parameter; the entries of `Clusters` are visited in the order of the list, which stands for
-- any order. Logging and metrics are left out.
pub mod Counts
pub mod Keeps
pub mod Ends
use claudie.Prelude.{
  ℕ, zero, suc, ◌+◌, Bool, true, false, ◌||◌, List, [], ◌∷◌, Option, none, some, String, str_append,
  Dict, insert, length, ltb, ◌==◌, if◌then◌else◌,
}
use claudie.Manifest.{StateName, State, known, valid_state_transition_string}
use claudie.Store.{
  Store, Config, ClusterState, TaskEvent, Status, done, error, in_progress, wait_for_pickup, Reply,
  missing, broken,
}
use claudie.Store.Stages.{PbStage, convert_to_grpc_stages}
use claudie.Store.Convert.{Codec}
use claudie.Manager.Messages.{Wire, Msg, Made, made, unmade, out_of_range, message_for_stage}

-- `PublishMsg`: the queue after the call, and whether the acknowledgement tells of a duplicate;
-- `none` is an error.
pub record Nats : Type 1 where
  pub Queue : Type 0
  pub publish : Queue → Msg → Queue × Option Bool

-- How a visit of a cluster ends: with the next cluster, with `break clusters`, or with a panic.
pub data Next : Type 0 where
  go_on stop died : Next

-- "noWork"
abbrev pub no_work : List TaskEvent → Bool
no_work [] = true
no_work (e ∷ _) = ltb (length e.pipeline) 1 || ltb (length e.pipeline) e.current_stage

module _ (st : Store) (nats : Nats) (c : Codec) (wire : Wire) where
  -- What the loop over the clusters of a document changes.
  pub record Pass : Type 0 where
    pub db : st.Db
    pub queue : nats.Queue
    pub doc : Config
    pub clusters_done : ℕ
    pub any_error : Bool

  abbrev pub put : String → ClusterState → Config → Config
  put name cs doc = record doc { clusters = insert name cs doc.clusters }

  -- `UpdateConfig` on the document of the pass, which takes over the new version.
  abbrev pub save : Pass → Pass × Reply Config
  save p =
      let (db, reply) = st.update_config p.db p.doc in
      (
        record p {
          db = db;
          doc = elim reply [ Reply.ok d ↦ d | missing ↦ p.doc | broken ↦ p.doc ];
        },
        reply,
      )

  abbrev pub idle : ClusterState → ClusterState
  idle cs = record cs {
    in_flight = [];
    state = record (cs.state) { status = done; description = "" };
  }

  -- "Nothing to be worked on"
  abbrev pub visit_no_work : Pass → String → ClusterState → Pass × Next
  visit_no_work p name cs =
      let (p', reply) = save (record p { doc = put name (idle cs) p.doc }) in
      (p', elim reply [ Reply.ok _ ↦ stop | missing ↦ stop | broken ↦ go_on ])

  abbrev pub picked_up : TaskEvent → String → ClusterState → ClusterState
  picked_up e d cs = record cs {
    state = record (cs.state) {
      status = in_progress;
      description = str_append e.description (str_append "\n- " d);
    };
  }

  -- After the message is published. On a dirty write the `break` leaves the switch alone.
  abbrev pub visit_published : Pass → String → ClusterState → TaskEvent → String → Pass × Next
  visit_published p name cs e d =
      let (p', reply) = save (record p { doc = put name (picked_up e d cs) p.doc }) in
      (p', elim reply [ Reply.ok _ ↦ stop | missing ↦ go_on | broken ↦ stop ])

  -- By the acknowledgement of the queue.
  abbrev pub on_ack : Option Bool → Pass → String → ClusterState → TaskEvent → String → Pass × Next
  on_ack none p name cs e d = (p, go_on)
  on_ack (some _) p name cs e d = visit_published p name cs e d

  abbrev pub on_made : Made → Pass → String → ClusterState → TaskEvent → Pass × Next
  on_made unmade p name cs e = (p, go_on)
  on_made out_of_range p name cs e = (p, died)
  on_made (made msg d) p name cs e =
      let (queue, ack) = nats.publish p.queue msg in
      on_ack ack (record p { queue = queue }) name cs e d

  abbrev pub visit_waiting : Pass → String → ClusterState → TaskEvent → List PbStage → Pass × Next
  visit_waiting p name cs e pipeline =
      on_made (message_for_stage c wire p.doc.name name e.id e.task e.current_stage pipeline) p name
        cs e

  -- The `switch state.State.Status`, where the finished ones have been passed over.
  abbrev pub by_status :
      Status → Pass → String → ClusterState → TaskEvent → List PbStage → Pass × Next
  by_status wait_for_pickup p name cs e pipeline = visit_waiting p name cs e pipeline
  by_status in_progress p name cs e pipeline = (p, go_on)
  by_status _ p name cs e pipeline = (p, go_on)

  abbrev pub visit_event : Pass → String → ClusterState → List TaskEvent → Pass × Next
  visit_event p name cs [] = visit_no_work p name cs
  visit_event p name cs (e ∷ rest) =
      if no_work (e ∷ rest)
      then visit_no_work p name cs
      else elim (convert_to_grpc_stages c.names e.pipeline) [
        | none ↦ (p, go_on)
        | some pipeline ↦ by_status cs.state.status p name cs e pipeline
      ]

  abbrev pub visit_by : Status → Pass → String → ClusterState → Pass × Next
  visit_by done p name cs = (record p { clusters_done = p.clusters_done + 1 }, go_on)
  visit_by error p name cs =
      (record p { clusters_done = p.clusters_done + 1; any_error = true }, go_on)
  visit_by _ p name cs = visit_event p name cs cs.in_flight

  -- The body of the loop over the clusters.
  unfoldable pub visit : Pass → String → ClusterState → Pass × Next
  unfolding message_for_stage
  visit p name cs = visit_by cs.state.status p name cs

  -- The loop itself; `none` is a panic.
  unfoldable pub scan : Dict ClusterState → Pass → Option Pass
  unfolding visit
  scan [] p = some p
  scan ((name, cs) ∷ entries) p =
      let (p', next) = visit p name cs in
      let rest = scan entries p' in elim next [ go_on ↦ rest | stop ↦ some p' | died ↦ none ]

  abbrev pub new_state : Bool → State
  new_state any_error = if any_error then State.error else State.done

  abbrev pub moved : String → State → Config → Config
  moved now s doc = record doc {
    manifest = record (doc.manifest) { state = known s; state_timestamp = now };
  }

  abbrev pub is_valid : Option Bool → Bool
  is_valid none = false
  is_valid (some b) = b

  -- "if clustersDone == len(scheduled.Clusters)"
  unfoldable pub conclude : String → Pass → Pass
  conclude now p =
      if p.clusters_done == length p.doc.clusters
      then if is_valid (valid_state_transition_string p.doc.manifest.state (new_state p.any_error))
        then (save (record p { doc = moved now (new_state p.any_error) p.doc })).0
        else p
      else p

  -- One document of `WatchForScheduledDocuments`.
  unfoldable pub watch_scheduled : String → st.Db → nats.Queue → Config → Option Pass
  unfolding scan conclude
  watch_scheduled now db queue doc =
      elim (scan doc.clusters
        (record { db = db; queue = queue; doc = doc; clusters_done = 0; any_error = false })) [
          | none ↦ none
          | some p ↦ some (conclude now p)
        ]

  -- "for _, scheduled := range cfgs"; a panic ends the service.
  unfoldable pub watch_each :
      String → st.Db → nats.Queue → List Config → Option (st.Db × nats.Queue)
  unfolding watch_scheduled
  watch_each now db queue [] = some (db, queue)
  watch_each now db queue (doc ∷ docs) = elim (watch_scheduled now db queue doc) [
    | none ↦ none
    | some p ↦ watch_each now p.db p.queue docs
  ]

  -- `WatchForScheduledDocuments`, where an error of ListConfigs is returned and nothing done.
  unfoldable pub watch_for_scheduled_documents :
      String → st.Db → nats.Queue → Option (st.Db × nats.Queue)
  unfolding watch_each
  watch_for_scheduled_documents now db queue =
      elim (st.list_configs db (known State.scheduled ∷ [])) [
        | Reply.ok docs ↦ watch_each now db queue docs
        | missing ↦ some (db, queue)
        | broken ↦ some (db, queue)
      ]
