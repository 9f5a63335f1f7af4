-- ===== src/Manager/Idle/Purge.antt =====
-- WatchForDoneOrErrorDocuments: what happens to an idle document and its clusters.
use claudie.Prelude.{
  ◌≡◌, ◌≢◌, refl, ◌↔◌, true, ◌&&◌, [], ◌∷◌, Option, none, some, String, Dict, erase, lookup,
  lookup-erase, if◌then◌else◌, arith, Bool-cases, inl, inr, eq_iff, keys, Distinct, is_none,
  contains-keys, ap, ◌∙◌,
}
use claudie.Manifest.{StateName, State, known, unrecognized, valid_state_transition_string}
use claudie.Store.{Config, ClusterState, Bytes}
use claudie.Manager.Idle.{
  remove, move, idle, purge, is_destroyed, checksum_eq, bytes_eq, bytes_of, to_pending, is_done,
}

-- What a search finds of a cluster that may be gone.
abbrev pub unless_destroyed : Option ClusterState → Option ClusterState
unless_destroyed none = none
unless_destroyed (some cs) = if is_destroyed cs then none else some cs

abbrev purged : Option ClusterState → Option ClusterState → Option ClusterState
purged none found = found
purged (some cs) found = if is_destroyed cs then none else found

lookup-purge :
    (k : String) (entries m : Dict ClusterState)
    → Distinct (keys entries)
    → lookup k (purge entries m) ≡ purged (lookup k entries) (lookup k m)
unfolding purge lookup
lookup-purge k [] m d = refl
lookup-purge k ((name, cs) ∷ entries) m (fresh, d) = ground (
  arith,
  eq_iff name k,
  contains-keys name entries,
  lookup-purge k entries (if is_destroyed cs then erase name m else m) d,
  lookup-erase name k m,
)

is_done-known : (s : StateName) → is_done s ≡ true → s ≡ known State.done
is_done-known (known State.done) e = refl
is_done-known (known State.pending) e = absurd (cc e)
is_done-known (known State.scheduled) e = absurd (cc e)
is_done-known (known State.error) e = absurd (cc e)
is_done-known (unrecognized _) e = absurd (cc e)

is_none-none : {A : Type 0} (o : Option A) → is_none o ≡ true → o ≡ none
is_none-none none e = refl
is_none-none (some _) e = absurd (cc e)

-- An idle document is deleted exactly when it is in the Done state and has neither checksum.
pub idle_removes :
    (now : String) (doc : Config)
    → (idle now doc ≡ remove) ↔ (
        (doc.manifest.state ≡ known State.done)
        × (doc.manifest.checksum ≡ none)
        × (doc.manifest.last_applied_checksum ≡ none))
unfolding idle
idle_removes now doc =
    let m = doc.manifest in
    (
      λ e. elim (Bool-cases (checksum_eq m.last_applied_checksum m.checksum)) [
        | inl same ↦
            elim (Bool-cases
              (is_done m.state && (is_none m.checksum && is_none m.last_applied_checksum))) [
                | inl all ↦ (
                  is_done-known m.state (ground arith),
                  is_none-none m.checksum (ground arith),
                  is_none-none m.last_applied_checksum (ground arith),
                )
                | inr few ↦ absurd (ground arith)
              ]
        | inr differs ↦ absurd (ground arith)
      ],
      λ (d, c, l). ground (arith, d, c, l),
    )

bytes_eq_refl : (b : Bytes) → bytes_eq b b ≡ true
bytes_eq_refl [] = refl
bytes_eq_refl (x ∷ xs) = ground (arith, bytes_eq_refl xs)

purged_self : (o : Option ClusterState) → purged o o ≡ unless_destroyed o
purged_self none = refl
purged_self (some cs) = refl

-- An idle document that is moved on differs in its two checksums, becomes pending with the
-- clusters that have no current state and no event dropped and all others as they were, and was
-- not scheduled. The keys of its clusters are distinct.
pub idle_moves :
    (now : String) (doc doc' : Config)
    → Distinct (keys doc.clusters)
    → idle now doc ≡ move doc'
    → (doc.manifest.last_applied_checksum ≢ doc.manifest.checksum)
      × (doc.manifest.state ≢ known State.scheduled)
      × (doc'.manifest.state ≡ known State.pending)
      × (doc'.version ≡ doc.version)
      × ((name : String) → lookup name doc'.clusters ≡ unless_destroyed (lookup name doc.clusters))
unfolding idle valid_state_transition_string
idle_moves now doc doc' d e =
    elim (Bool-cases (checksum_eq doc.manifest.last_applied_checksum doc.manifest.checksum)) [
      | inl same ↦ absurd (ground arith)
      | inr differs ↦
          let to : to_pending now doc ≡ doc' = ground arith in
          (
            λ f. absurd (
                ground (
                  arith,
                  ap (λ o. checksum_eq o doc.manifest.checksum) f,
                  bytes_eq_refl (bytes_of doc.manifest.checksum),
                )),
            λ f. absurd (ground (arith, f)),
            rw (← to) refl,
            rw (← to) refl,
            λ name. rw (← to) (
                lookup-purge name doc.clusters doc.clusters d
                ∙ purged_self (lookup name doc.clusters)),
          )
    ]
