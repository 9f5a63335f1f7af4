-- ===== src/Manager/Idle.antt =====
-- services/manager/internal/service/watchers.go: WatchForDoneOrErrorDocuments. A nil checksum is
-- `none`. Logging is left out.
pub mod Purge
use claudie.Prelude.{
  ℕ, Bool, true, false, ◌&&◌, List, [], ◌∷◌, Option, none, some, String, Dict, erase, ◌==◌,
  if◌then◌else◌, is_none,
}
use claudie.Manifest.{StateName, State, known, unrecognized, valid_state_transition_string}
use claudie.Pools.{is_empty}
use claudie.Store.{Store, Config, ClusterState, Bytes, Reply, missing, broken}

abbrev pub bytes_eq : Bytes → Bytes → Bool
bytes_eq [] [] = true
bytes_eq (a ∷ xs) (b ∷ ys) = (a == b) && bytes_eq xs ys
bytes_eq _ _ = false

abbrev pub bytes_of : Option Bytes → Bytes
bytes_of none = []
bytes_of (some b) = b

-- `bytes.Equal`, to which nil is the empty slice.
abbrev pub checksum_eq : Option Bytes → Option Bytes → Bool
checksum_eq a b = bytes_eq (bytes_of a) (bytes_of b)

-- The cluster has neither a current state nor an event.
abbrev pub is_destroyed : ClusterState → Bool
is_destroyed cs =
    (is_empty cs.current.k8s && is_empty cs.current.load_balancers) && is_empty cs.in_flight

-- The loop over the clusters, for the entries that it ranges over.
unfoldable pub purge : Dict ClusterState → Dict ClusterState → Dict ClusterState
purge [] m = m
purge ((name, cs) ∷ entries) m = purge entries (if is_destroyed cs then erase name m else m)

-- What is done with a document.
pub data Idle : Type 0 where
  keep remove : Idle
  move : Config → Idle

abbrev pub to_pending : String → Config → Config
to_pending now doc = record doc {
  manifest = record (doc.manifest) { state = known State.pending; state_timestamp = now };
  clusters = purge doc.clusters doc.clusters;
}

abbrev pub is_done : StateName → Bool
is_done (known State.done) = true
is_done _ = false

abbrev pub may_go : Option Bool → Bool
may_go none = false
may_go (some b) = b

-- The body of the loop over the documents, up to the call of the store.
unfoldable pub idle : String → Config → Idle
unfolding purge
idle now doc =
    if checksum_eq doc.manifest.last_applied_checksum doc.manifest.checksum
    then if is_done doc.manifest.state
        && (is_none doc.manifest.checksum && is_none doc.manifest.last_applied_checksum)
      then remove
      else keep
    else if may_go (valid_state_transition_string doc.manifest.state State.pending)
    then move (to_pending now doc)
    else keep

module _ (st : Store) where
  abbrev pub perform : Idle → st.Db → Config → st.Db
  perform keep db doc = db
  perform remove db doc = (st.delete_config db doc.name doc.version).0
  perform (move to) db doc = (st.update_config db to).0

  unfoldable pub watch_idle : String → st.Db → List Config → st.Db
  unfolding idle
  watch_idle now db [] = db
  watch_idle now db (doc ∷ docs) = watch_idle now (perform (idle now doc) db doc) docs

  -- `WatchForDoneOrErrorDocuments`
  unfoldable pub watch_for_done_or_error_documents : String → st.Db → st.Db
  unfolding watch_idle
  watch_for_done_or_error_documents now db =
      elim (st.list_configs db (known State.done ∷ known State.error ∷ [])) [
        | Reply.ok docs ↦ watch_idle now db docs
        | missing ↦ db
        | broken ↦ db
      ]
