-- ===== src/Manager/Scheduled/Ends.antt =====
-- WatchForScheduledDocuments: when a document leaves the Scheduled state, and for which.
use claudie.Prelude.{
  ◌≡◌, refl, ◌<◌, Bool, true, false, some, String, length, ◌==◌, if◌then◌else◌, arith, Option-cases,
  inl, inr, sym, ◌∙◌,
}
use claudie.Manifest.{StateName, State, known, valid_state_transition_string}
use claudie.Store.{Store, Config}
use claudie.Store.Convert.{Codec}
use claudie.Manager.Messages.{Wire}
use claudie.Manager.Scheduled.{
  Nats, Pass, save, scan, conclude, watch_scheduled, new_state, moved, is_valid,
}
use claudie.Store.Locking.{IsLocking}
use claudie.Manager.Scheduled.Keeps.{scan-Keeps}
use claudie.Manager.Scheduled.Counts.{
  all_settled, some_errored, scan-settled, counted_on, scan-count,
}

module _ (st : Store) (nats : Nats) (c : Codec) (wire : Wire) where
  to_new_state :
      (s : StateName) (b : Bool)
      → s ≡ known State.scheduled
      → is_valid st nats c wire (valid_state_transition_string s (new_state st nats c wire b))
        ≡ true
  unfolding valid_state_transition_string
  to_new_state s true e = rw e refl
  to_new_state s false e = rw e refl

  conclude-all :
      (now : String) (p : Pass st nats c wire)
      → p.clusters_done ≡ length p.doc.clusters
      → p.doc.manifest.state ≡ known State.scheduled
      → conclude st nats c wire now p
        ≡ (save st nats c wire (record p {
          doc = moved st nats c wire now (new_state st nats c wire p.any_error) p.doc;
        })).0
  unfolding conclude
  conclude-all now p n s =
      let all : (p.clusters_done == length p.doc.clusters) ≡ true = ground (arith, n) in
      rw (all, to_new_state p.doc.manifest.state p.any_error s) refl

  conclude-open :
      (now : String) (p : Pass st nats c wire)
      → p.clusters_done < length p.doc.clusters
      → conclude st nats c wire now p ≡ p
  unfolding conclude
  conclude-open now p n =
      let few : (p.clusters_done == length p.doc.clusters) ≡ false = ground (arith, n) in
      rw few refl

-- When every cluster of a scheduled document is done or in error, the pass publishes nothing and
-- makes one update: the document moves to the Error state if a cluster is in error, and to the Done
-- state otherwise.
pub watch_scheduled_settled :
    (st : Store) (nats : Nats) (c : Codec) (wire : Wire) (now : String) (db : st.Db)
    (queue : nats.Queue) (doc : Config)
    → all_settled doc.clusters ≡ true
    → doc.manifest.state ≡ known State.scheduled
    → (p : Pass st nats c wire) × (watch_scheduled st nats c wire now db queue doc ≡ some p)
      × (p.queue ≡ queue)
      × (p.db
          ≡ (st.update_config db (
              moved st nats c wire now
                (if some_errored doc.clusters then State.error else State.done)
                doc)).0)
unfolding watch_scheduled conclude
watch_scheduled_settled st nats c wire now db queue doc h s =
    let start : Pass st nats c wire = record {
      db = db;
      queue = queue;
      doc = doc;
      clusters_done = 0;
      any_error = false;
    } in
    let scanned = scan-settled st nats c wire doc.clusters start h in
    let p = counted_on st nats c wire doc.clusters start in
    (
      conclude st nats c wire now p,
      rw (scanned, watch_scheduled) refl,
      rw (conclude-all st nats c wire now p (omega arith) s) refl,
      rw (conclude-all st nats c wire now p (omega arith) s) refl,
    )

-- When some cluster is neither done nor in error, the pass leaves the manifest of the document as
-- it is, its state included, over any store that keeps the promise of optimistic locking.
pub watch_scheduled_open :
    (st : Store) (nats : Nats) (c : Codec) (wire : Wire) (l : IsLocking st) (now : String)
    (db : st.Db) (queue : nats.Queue) (doc : Config) (p : Pass st nats c wire)
    → all_settled doc.clusters ≡ false
    → watch_scheduled st nats c wire now db queue doc ≡ some p
    → p.doc.manifest ≡ doc.manifest
unfolding watch_scheduled
watch_scheduled_open st nats c wire l now db queue doc p h e =
    let start : Pass st nats c wire = record {
      db = db;
      queue = queue;
      doc = doc;
      clusters_done = 0;
      any_error = false;
    } in
    elim (Option-cases (scan st nats c wire doc.clusters start)) [
      | inl n ↦ absurd (ground arith)
      | inr (q, n) ↦
          let (same, le) = scan-Keeps st nats c wire l doc.clusters start q n in
          let (_, lt) = scan-count st nats c wire doc.clusters start q n in
          let few : q.clusters_done < length q.doc.clusters = omega (arith, le, lt h) in
          let ended : conclude st nats c wire now q ≡ p = ground arith in
          let unmoved : q ≡ p = sym (conclude-open st nats c wire now q few) ∙ ended in
          rw (← unmoved) same
    ]
