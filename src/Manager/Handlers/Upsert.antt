-- ===== src/Manager/Handlers/Upsert.antt =====
-- services/manager/internal/service/handler_upsert_manifest.go: UpsertManifest, with
-- validateStaticNodePools, collectIPs and ipMatch, and handler_mark_for_deletion.go MarkForDeletion.
-- The digest, the YAML parser and the operations of the store beside those of `Store` are parameters.
pub mod Disjoint
use claudie.Prelude.{
  ℕ, Bool, true, false, ◌&&◌, ◌||◌, List, [], ◌∷◌, ◌++◌, Option, none, some, String, contains,
  str_eq, if◌then◌else◌,
}
use claudie.Manifest.{StateName, State, known}
use claudie.Store.{Store, Config, Manifest, Bytes, Reply, ok, missing, broken}
use claudie.Manager.Idle.{checksum_eq}
use claudie.Manager.Handlers.{
  Code, invalid_argument, not_found, internal, aborted, Response, answer, refused,
}

-- What the handler reads of a parsed manifest: its name, and the endpoints of its static nodepools.
pub record ManifestFile : Type 0 where
  pub name : String
  pub static_endpoints : List (List String)

-- `UpsertManifestRequest`, with the manifest set.
pub record UpsertRequest : Type 0 where
  pub name : String
  pub context_name : String
  pub context_namespace : String
  pub raw : String
  pub state : State

-- `collectIPs`: the keys of the map.
unfoldable pub collect_ips : List (List String) → List String
collect_ips [] = []
collect_ips (nodes ∷ nps) = nodes ++ collect_ips nps

-- `ipMatch`: the first common address; `none` is "".
unfoldable pub ip_match : List String → List String → Option String
unfolding contains
ip_match [] second = none
ip_match (ip ∷ first) second =
    let later = ip_match first second in if contains ip second then some ip else later

module _ (parse : String → Option ManifestFile) where
  -- The check against one other document; `false` is an error.
  abbrev pub is_apart : ManifestFile → Config → Bool
  is_apart m cfg = if str_eq cfg.name m.name then true else elim (parse cfg.manifest.raw) [
    | none ↦ false
    | some other ↦
        elim (ip_match (collect_ips m.static_endpoints) (collect_ips other.static_endpoints)) [
          | none ↦ true
          | some ip ↦ str_eq ip ""
        ]
  ]

  -- `validateStaticNodePools`
  unfoldable pub validate_static_node_pools : ManifestFile → List Config → Bool
  unfolding ip_match collect_ips
  validate_static_node_pools m [] = true
  validate_static_node_pools m (cfg ∷ cfgs) = is_apart m cfg && validate_static_node_pools m cfgs

  -- The stored document with the new manifest, where its checksum differs.
  abbrev pub renewed : UpsertRequest → Bytes → Config → Config
  renewed r sum doc = if checksum_eq doc.manifest.checksum (some sum) then doc else record doc {
    manifest = record (doc.manifest) { raw = r.raw; checksum = some sum };
    context_name = r.context_name;
    context_namespace = r.context_namespace;
  }

  abbrev pub new_config : UpsertRequest → Bytes → String → Config
  new_config r sum now = record {
    version = 0;
    name = r.name;
    context_name = r.context_name;
    context_namespace = r.context_namespace;
    manifest = record {
      raw = r.raw;
      checksum = some sum;
      last_applied_checksum = none;
      state = known r.state;
      state_timestamp = now;
    };
    clusters = [];
  }

  module _ (st : Store) (create_config : st.Db → Config → st.Db × Reply Config)
      (list_all : st.Db → Reply (List Config)) (digest : String → Bytes) (now : String) where
    abbrev pub saved : st.Db × Reply Config → Code → st.Db × Response ℕ
    saved (db, ok doc) dirty = (db, answer doc.version)
    saved (db, missing) dirty = (db, refused dirty)
    saved (db, broken) dirty = (db, refused internal)

    -- A document that is stored already.
    abbrev pub update_stored : UpsertRequest → st.Db → Config → st.Db × Response ℕ
    update_stored r db doc = elim (list_all db) [
      | missing ↦ (db, refused internal)
      | broken ↦ (db, refused internal)
      | ok cfgs ↦ elim (parse r.raw) [
        | none ↦ (db, refused internal)
        | some m ↦
            if validate_static_node_pools m cfgs
            then saved (st.update_config db (renewed r (digest r.raw) doc)) aborted
            else (db, refused internal)
      ]
    ]

    -- `UpsertManifest`, by the version that is answered.
    unfoldable pub upsert_manifest : UpsertRequest → st.Db → st.Db × Response ℕ
    unfolding validate_static_node_pools
    upsert_manifest r db =
        if str_eq r.name "" || str_eq r.raw ""
        then (db, refused invalid_argument)
        else elim (st.get_config db r.name) [
          | broken ↦ (db, refused internal)
          | missing ↦ saved (create_config db (new_config r (digest r.raw) now)) internal
          | ok doc ↦ update_stored r db doc
        ]

module _ (st : Store) (mark : st.Db → String → ℕ → st.Db × Reply (Unit {0})) where
  -- `MarkForDeletion` of the service, by that of the store.
  unfoldable pub mark_for_deletion : String → ℕ → st.Db → st.Db × Response ℕ
  mark_for_deletion name version db =
      let (db', reply) = mark db name version in
      (
        db',
        elim reply [
          | ok _ ↦ answer version
          | broken ↦ refused internal
          | missing ↦ elim (st.get_config db' name) [
            | ok _ ↦ refused aborted
            | missing ↦ refused not_found
            | broken ↦ refused internal
          ]
        ],
      )
