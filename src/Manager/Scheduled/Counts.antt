-- ===== src/Manager/Scheduled/Counts.antt =====
-- WatchForScheduledDocuments: which clusters a pass counts as done.
use claudie.Prelude.{
  ℕ, ◌≡◌, refl, ◌+◌, ◌≤◌, ◌<◌, Bool, true, false, ◌||◌, ◌&&◌, List, [], ◌∷◌, Option, none, some,
  String, Dict, length, arith, Bool-cases, inl, inr, sym, ap, ap₂, ◌∙◌,
}
use claudie.Store.{
  Store, ClusterState, TaskEvent, Status, done, error, in_progress, wait_for_pickup, other_status,
}
use claudie.Store.Convert.{Codec}
use claudie.Manager.Messages.{Wire}
use claudie.Manager.Scheduled.{
  Nats, Next, go_on, stop, died, Pass, visit, visit_by, visit_event, scan,
}

-- No further work is done with the cluster.
abbrev pub is_settled : Status → Bool
is_settled done = true
is_settled error = true
is_settled _ = false

abbrev pub is_errored : Status → Bool
is_errored error = true
is_errored _ = false

abbrev pub all_settled : Dict ClusterState → Bool
all_settled [] = true
all_settled ((_, cs) ∷ entries) = is_settled cs.state.status && all_settled entries

abbrev pub some_errored : Dict ClusterState → Bool
some_errored [] = false
some_errored ((_, cs) ∷ entries) = is_errored cs.state.status || some_errored entries

module _ (st : Store) (nats : Nats) (c : Codec) (wire : Wire) where
  -- A cluster that is not settled is not counted.
  abbrev Uncounted : Pass st nats c wire → Pass st nats c wire × Next → Type 0
  Uncounted p (p', next) = p'.clusters_done ≡ p.clusters_done

  visit_event-Uncounted :
      (p : Pass st nats c wire) (name : String) (cs : ClusterState) (es : List TaskEvent)
      → (visit_event st nats c wire p name cs es).0.clusters_done ≡ p.clusters_done
  visit_event-Uncounted p name cs [] = refl
  visit_event-Uncounted p name cs (e ∷ rest) = ground arith

  pub visit-settled :
      (p : Pass st nats c wire) (name : String) (cs : ClusterState)
      → is_settled cs.state.status ≡ true
      → visit st nats c wire p name cs ≡ (
        record p {
          clusters_done = p.clusters_done + 1;
          any_error = p.any_error || is_errored cs.state.status;
        },
        go_on,
      )
  unfolding visit
  visit-settled p name cs h = by cs.state.status h
    where
      by :
          (s : Status)
          → is_settled s ≡ true
          → visit_by st nats c wire s p name cs ≡ (
            record p {
              clusters_done = p.clusters_done + 1;
              any_error = p.any_error || is_errored s;
            },
            go_on,
          )
      by done h = ground arith
      by error h = ground arith
      by in_progress h = absurd (cc h)
      by wait_for_pickup h = absurd (cc h)
      by (other_status _) h = absurd (cc h)

  visit-unsettled :
      (p : Pass st nats c wire) (name : String) (cs : ClusterState)
      → is_settled cs.state.status ≡ false
      → visit st nats c wire p name cs ≡ visit_event st nats c wire p name cs cs.in_flight
  unfolding visit
  visit-unsettled p name cs h = by cs.state.status h
    where
      by :
          (s : Status)
          → is_settled s ≡ false
          → visit_by st nats c wire s p name cs ≡ visit_event st nats c wire p name cs cs.in_flight
      by done h = absurd (cc h)
      by error h = absurd (cc h)
      by in_progress h = refl
      by wait_for_pickup h = refl
      by (other_status _) h = refl

  -- How the loop goes on after a visit.
  abbrev pub after : Dict ClusterState → Pass st nats c wire × Next → Option (Pass st nats c wire)
  after entries (p, go_on) = scan st nats c wire entries p
  after entries (p, stop) = some p
  after entries (p, died) = none

  pub scan-after :
      (name : String) (cs : ClusterState) (entries : Dict ClusterState) (p : Pass st nats c wire)
      → scan st nats c wire ((name, cs) ∷ entries) p
        ≡ after entries (visit st nats c wire p name cs)
  unfolding scan
  scan-after name cs entries p = by (visit st nats c wire p name cs)
    where
      by :
          (v : Pass st nats c wire × Next)
          → (elim v.1 [ go_on ↦ scan st nats c wire entries v.0 | stop ↦ some v.0 | died ↦ none ])
            ≡ after entries v
      by (q, go_on) = refl
      by (q, stop) = refl
      by (q, died) = refl

  abbrev pub counted_on : Dict ClusterState → Pass st nats c wire → Pass st nats c wire
  counted_on entries p = record p {
    clusters_done = p.clusters_done + length entries;
    any_error = p.any_error || some_errored entries;
  }

  counted_on-step :
      (name : String) (cs : ClusterState) (entries : Dict ClusterState) (p : Pass st nats c wire)
      → counted_on entries (record p {
        clusters_done = p.clusters_done + 1;
        any_error = p.any_error || is_errored cs.state.status;
      })
        ≡ counted_on ((name, cs) ∷ entries) p
  counted_on-step name cs entries p =
      ap₂ (λ n b. record p { clusters_done = n; any_error = b }) (omega arith) (ground arith)

  pub scan-settled :
      (entries : Dict ClusterState) (p : Pass st nats c wire)
      → all_settled entries ≡ true
      → scan st nats c wire entries p ≡ some (counted_on entries p)
  unfolding scan
  scan-settled [] p h =
      ap some
        (ap₂ (λ n b. record p { clusters_done = n; any_error = b }) (omega arith) (ground arith))
  scan-settled ((name, cs) ∷ entries) p h =
      scan-after name cs entries p
      ∙ ap (after entries) (visit-settled p name cs (ground arith))
      ∙ scan-settled entries _ (ground arith)
      ∙ ap some (counted_on-step name cs entries p)

  abbrev pub Counts : Dict ClusterState → ℕ → Pass st nats c wire → Type 0
  Counts entries n p' =
      (p'.clusters_done ≤ n + length entries)
      × (all_settled entries ≡ false → p'.clusters_done < n + length entries)

  -- At most the visited clusters are counted, and all of them only if all are settled.
  pub scan-count :
      (entries : Dict ClusterState) (p p' : Pass st nats c wire)
      → scan st nats c wire entries p ≡ some p'
      → Counts entries p.clusters_done p'
  unfolding scan
  scan-count [] p p' e = (ground arith, λ h. absurd (cc h))
  scan-count ((name, cs) ∷ entries) p p' e = elim (Bool-cases (is_settled cs.state.status)) [
    | inl settled ↦
        let q : Pass st nats c wire = record p {
          clusters_done = p.clusters_done + 1;
          any_error = p.any_error || is_errored cs.state.status;
        } in
        let on : scan st nats c wire entries q ≡ some p' =
          sym (ap (after entries) (visit-settled p name cs settled))
          ∙ sym (scan-after name cs entries p)
          ∙ e in
        let (le, lt) = scan-count entries q p' on in
        (omega (arith, le), λ h. omega (arith, lt (ground arith)))
    | inr other ↦
        by (visit_event st nats c wire p name cs cs.in_flight)
          (visit_event-Uncounted p name cs cs.in_flight)
          (sym (ap (after entries) (visit-unsettled p name cs other))
            ∙ sym (scan-after name cs entries p)
            ∙ e)
          (λ q on. scan-count entries q p' on)
  ]
    where
      by :
          (v : Pass st nats c wire × Next)
          → v.0.clusters_done ≡ p.clusters_done
          → after entries v ≡ some p'
          → ((q : Pass st nats c wire)
              → scan st nats c wire entries q ≡ some p'
              → Counts entries q.clusters_done p')
          → Counts ((name, cs) ∷ entries) p.clusters_done p'
      by (q, go_on) u a f =
          let (le, lt) = f q a in (omega (arith, le, u), λ h. omega (arith, le, u))
      by (q, stop) u a f =
          let same : q ≡ p' = ground arith in (ground (arith, u), λ h. ground (arith, u))
      by (q, died) u a f = absurd (cc a)
