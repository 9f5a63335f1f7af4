-- ===== src/Examples/Tables.antt =====
-- A table of documents as the collection behind the store: witnesses of optimistic locking.
use claudie.Prelude.{
  ℕ, ◌≡◌, ◌≢◌, refl, Bool, true, false, ◌||◌, List, [], ◌∷◌, Option, none, some, String, str_eq,
  Dict, lookup, insert, erase, lookup-insert, if◌then◌else◌, arith, ◌==◌, map, keep_func,
}
use claudie.Manifest.{StateName, known, State, state_eq}
use claudie.Store.{Config, ClusterState, ok, missing, Bytes}
use claudie.Store.Locking.{IsLocking, raised}
use claudie.Store.Mongo.{
  Collection, IsCollection, mongo_store, mongo_store-IsLocking, update_config, get_config,
  update_config_once,
}

abbrev name_eq : StateName → StateName → Bool
name_eq (known s) (known t) = state_eq s t
name_eq _ _ = false

abbrev pub in_states : List StateName → Config → Bool
in_states [] c = false
in_states (s ∷ ss) c = name_eq s c.manifest.state || in_states ss c

abbrev at_version : Option Config → ℕ → Bool
at_version none v = false
at_version (some c) v = c.version == v

abbrev set : Bool → Dict Config → String → Config → Dict Config × Option Bool
set true db n c = (insert n c db, some true)
set false db n c = (db, some false)

abbrev unset : Bool → Dict Config → String → Dict Config × Option ℕ
unset true db n = (erase n db, some 1)
unset false db n = (db, some 0)

abbrev marked : Bytes → Config → Config
marked digest c = record c {
  manifest = record (c.manifest) { raw = ""; checksum = none; last_applied_checksum = some digest };
}

abbrev pub table : Collection
table = record {
  Coll = Dict Config;
  find_one = λ db n. some (lookup n db);
  find_all = λ db ss. some (keep_func (in_states ss) (map (λ e. e.1) db));
  insert_one = λ db c. (insert c.name c db, some tt);
  find_one_and_set = λ db n v c. set (at_version (lookup n db) v) db n c;
  find_one_and_mark = λ db n v digest. elim (lookup n db) [
    | none ↦ (db, some false)
    | some c ↦ set (c.version == v) db n (marked digest c)
  ];
  delete_one = λ db n v. unset (at_version (lookup n db) v) db n;
}

at_version-some :
    (o : Option Config) (v : ℕ)
    → at_version o v ≡ true
    → (old : Config) × (o ≡ some old) × (old.version ≡ v)
at_version-some none v e = absurd (cc e)
at_version-some (some c) v e = (c, refl, ground arith)

set_hit :
    (b : Bool) (db : Dict Config) (n : String) (c : Config)
    → (set b db n c).1 ≡ some true
    → (b ≡ true)
      × ((k : String) → lookup k (set b db n c).0 ≡ (if str_eq n k then some c else lookup k db))
set_hit true db n c e = (refl, λ k. lookup-insert n k c db)
set_hit false db n c e = absurd (ground arith)

set_miss :
    (b : Bool) (db : Dict Config) (n : String) (c : Config)
    → (set b db n c).1 ≡ some false
    → (b ≡ false) × ((k : String) → lookup k (set b db n c).0 ≡ lookup k db)
set_miss true db n c e = absurd (ground arith)
set_miss false db n c e = (refl, λ k. refl)

pub table-IsCollection : IsCollection table
table-IsCollection = record {
  doc = λ db n. lookup n db;
  find_one_doc = λ db n o e. ground arith;
  set_matched = λ db n v c same e.
      let (b, others) = set_hit (at_version (lookup n db) v) db n c e in
      let (old, found, version) = at_version-some (lookup n db) v b in
      (old, found, version, others);
  set_unmatched = λ db n v c e.
      let (b, others) = set_miss (at_version (lookup n db) v) db n c e in
      (others, λ old found. λ f. absurd (ground (arith, b, found, f)));
}

-- A document with one cluster.
abbrev pub doc_with : StateName → Dict ClusterState → Config
doc_with s clusters = record {
  version = 7;
  name = "main";
  context_name = "";
  context_namespace = "";
  manifest = record {
    raw = "";
    checksum = some (1 ∷ []);
    last_applied_checksum = some (1 ∷ []);
    state = s;
    state_timestamp = "";
  };
  clusters = clusters;
}

abbrev doc : Config
doc = doc_with (known State.scheduled) []

abbrev other : Config
other = doc_with (known State.pending) []

abbrev db : Dict Config
db = ("main", doc) ∷ []

first : (update_config table db doc).1 ≡ ok (raised doc)
unfolding update_config lookup insert
first = refl

update_config_once_example :
    ((c : Config) → get_config table (update_config table db doc).0 "main" ≡ ok c → c ≡ raised doc)
    × ((b' : Config) → (update_config table (update_config table db doc).0 other).1 ≢ ok b')
    × ((c : Config)
        → (update_config table (update_config table db doc).0 other).1 ≡ missing
        → get_config table (update_config table (update_config table db doc).0 other).0 "main"
          ≡ ok c
        → c ≡ raised doc)
update_config_once_example =
    update_config_once table table-IsCollection db doc other (raised doc) refl refl first

mongo_store-IsLocking_example : IsLocking (mongo_store table)
mongo_store-IsLocking_example = mongo_store-IsLocking table table-IsCollection
