-- ===== src/Manager/Scheduled/Keeps.antt =====
-- WatchForScheduledDocuments: what a pass over the clusters keeps of the document.
use claudie.Prelude.{
  ◌≡◌, refl, ◌≤◌, Bool, List, [], ◌∷◌, Option, none, some, String, Dict, insert, length, arith,
  Bool-cases, Option-cases, inl, inr, sym, ◌∙◌,
}
use claudie.Store.{
  Store, Config, ClusterState, TaskEvent, Status, done, error, in_progress, wait_for_pickup, Reply,
  missing, broken, other_status,
}
use claudie.Store.Stages.{PbStage, convert_to_grpc_stages}
use claudie.Store.Convert.{Codec}
use claudie.Manager.Messages.{Wire, Made, made, unmade, out_of_range}
use claudie.Manager.Scheduled.{
  Nats, Next, go_on, stop, died, Pass, visit, visit_by, visit_event, by_status, save, no_work, scan,
  on_ack, on_made, put,
}
use claudie.Manager.Scheduled.Counts.{after, scan-after}
use claudie.Store.Locking.{IsLocking}

length-insert : {A : Type 0} (k : String) (v : A) (m : Dict A) → length m ≤ length (insert k v m)
unfolding insert
length-insert k v [] = omega arith
length-insert k v ((j, w) ∷ m) = ground (arith, length-insert k v m)

module _ (st : Store) (nats : Nats) (c : Codec) (wire : Wire) (l : IsLocking st) where
  -- The manifest is the same, and no cluster is gone.
  abbrev pub Keeps : Config → Pass st nats c wire → Type 0
  Keeps doc p = (p.doc.manifest ≡ doc.manifest) × (length doc.clusters ≤ length p.doc.clusters)

  save-Keeps : (p : Pass st nats c wire) → Keeps p.doc (save st nats c wire p).0
  save-Keeps p = by (st.update_config p.db p.doc).1 refl
    where
      by :
          (r : Reply Config)
          → (st.update_config p.db p.doc).1 ≡ r
          → Keeps p.doc (record p {
            db = (st.update_config p.db p.doc).0;
            doc = elim r [ Reply.ok d ↦ d | missing ↦ p.doc | broken ↦ p.doc ];
          })
      by (Reply.ok d) e =
          let (old, found, version, same, others) = l.update_ok p.db p.doc d e in
          (rw same refl, rw same (omega arith))
      by missing e = (refl, omega arith)
      by broken e = (refl, omega arith)

  put-save-Keeps :
      (p : Pass st nats c wire) (name : String) (cs : ClusterState)
      → Keeps p.doc (save st nats c wire (record p { doc = put st nats c wire name cs p.doc })).0
  put-save-Keeps p name cs =
      let (same, le) = save-Keeps (record p { doc = put st nats c wire name cs p.doc }) in
      (same, omega (arith, le, length-insert name cs p.doc.clusters))

  on_ack-Keeps :
      (a : Option Bool) (p : Pass st nats c wire) (name : String) (cs : ClusterState)
      (e : TaskEvent) (d : String)
      → Keeps p.doc (on_ack st nats c wire a p name cs e d).0
  on_ack-Keeps none p name cs e d = (refl, omega arith)
  on_ack-Keeps (some _) p name cs e d = put-save-Keeps p name _

  on_made-Keeps :
      (m : Made) (p : Pass st nats c wire) (name : String) (cs : ClusterState) (e : TaskEvent)
      → Keeps p.doc (on_made st nats c wire m p name cs e).0
  on_made-Keeps unmade p name cs e = (refl, omega arith)
  on_made-Keeps out_of_range p name cs e = (refl, omega arith)
  on_made-Keeps (made msg d) p name cs e =
      on_ack-Keeps (nats.publish p.queue msg).1 (record p { queue = (nats.publish p.queue msg).0 })
        name cs e d

  by_status-Keeps :
      (s : Status) (p : Pass st nats c wire) (name : String) (cs : ClusterState) (e : TaskEvent)
      (pipeline : List PbStage)
      → Keeps p.doc (by_status st nats c wire s p name cs e pipeline).0
  by_status-Keeps wait_for_pickup p name cs e pipeline = on_made-Keeps _ p name cs e
  by_status-Keeps done p name cs e pipeline = (refl, omega arith)
  by_status-Keeps error p name cs e pipeline = (refl, omega arith)
  by_status-Keeps in_progress p name cs e pipeline = (refl, omega arith)
  by_status-Keeps (other_status _) p name cs e pipeline = (refl, omega arith)

  visit_event-Keeps :
      (p : Pass st nats c wire) (name : String) (cs : ClusterState) (es : List TaskEvent)
      → Keeps p.doc (visit_event st nats c wire p name cs es).0
  visit_event-Keeps p name cs [] = put-save-Keeps p name _
  visit_event-Keeps p name cs (e ∷ rest) = elim (Bool-cases (no_work (e ∷ rest))) [
    | inl none_left ↦ rw (none_left, visit_event) (put-save-Keeps p name _)
    | inr work ↦ elim (Option-cases (convert_to_grpc_stages c.names e.pipeline)) [
      | inl bad ↦ rw (work, bad, visit_event) (refl, omega arith)
      | inr (pipeline, good) ↦
          rw (work, good, visit_event) (by_status-Keeps cs.state.status p name cs e pipeline)
    ]
  ]

  visit-Keeps :
      (p : Pass st nats c wire) (name : String) (cs : ClusterState)
      → Keeps p.doc (visit st nats c wire p name cs).0
  unfolding visit
  visit-Keeps p name cs = by cs.state.status
    where
      by : (s : Status) → Keeps p.doc (visit_by st nats c wire s p name cs).0
      by done = (refl, omega arith)
      by error = (refl, omega arith)
      by in_progress = visit_event-Keeps p name cs cs.in_flight
      by wait_for_pickup = visit_event-Keeps p name cs cs.in_flight
      by (other_status _) = visit_event-Keeps p name cs cs.in_flight

  Keeps-trans :
      (doc : Config) (p p' : Pass st nats c wire) → Keeps doc p → Keeps p.doc p' → Keeps doc p'
  Keeps-trans doc p p' (a, b) (d, e) = (d ∙ a, omega arith)

  pub scan-Keeps :
      (entries : Dict ClusterState) (p p' : Pass st nats c wire)
      → scan st nats c wire entries p ≡ some p'
      → Keeps p.doc p'
  unfolding scan
  scan-Keeps [] p p' e = let same : p ≡ p' = ground arith in rw (← same) (refl, omega arith)
  scan-Keeps ((name, cs) ∷ entries) p p' e =
      by (visit st nats c wire p name cs) (visit-Keeps p name cs)
        (sym (scan-after st nats c wire name cs entries p) ∙ e) (λ q on. scan-Keeps entries q p' on)
    where
      by :
          (v : Pass st nats c wire × Next)
          → Keeps p.doc v.0
          → after st nats c wire entries v ≡ some p'
          → ((q : Pass st nats c wire) → scan st nats c wire entries q ≡ some p' → Keeps q.doc p')
          → Keeps p.doc p'
      by (q, go_on) k a f = Keeps-trans p.doc q p' k (f q a)
      by (q, stop) k a f = let same : q ≡ p' = ground arith in rw (← same) k
      by (q, died) k a f = absurd (cc a)
