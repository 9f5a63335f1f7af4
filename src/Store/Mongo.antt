-- ===== src/Store/Mongo.antt =====
-- services/manager/internal/store/mongo_client.go: the store over a MongoDB collection. The
-- collection is a parameter: what the driver's calls do to the documents, by name.
use claudie.Prelude.{
  ℕ, ◌≡◌, ◌≢◌, refl, Bool, true, false, List, Option, none, some, String, str_eq, ◌==◌,
  if◌then◌else◌, arith, Bool-cases, Option-cases, inl, inr, sym,
}
use claudie.Manifest.{StateName, known, pending}
use claudie.Store.{Store, Config, Reply, ok, missing, broken, Bytes}
use claudie.Store.Locking.{
  IsLocking, raised, no_lost_update, get_config-update_config, get_config-refused,
}

-- The driver's calls, by name and version; `none` is an error other than ErrNoDocuments.
pub record Collection : Type 1 where
  pub Coll : Type 0
  -- `FindOne`
  pub find_one : Coll → String → Option (Option Config)
  -- `Find` and the cursor, with a filter on the state of the manifest if one is given.
  pub find_all : Coll → List StateName → Option (List Config)
  -- `InsertOne`
  pub insert_one : Coll → Config → Coll × Option (Unit {0})
  -- `FindOneAndUpdate` with `$set` to a whole document: whether one matched.
  pub find_one_and_set : Coll → String → ℕ → Config → Coll × Option Bool
  -- `FindOneAndUpdate` of `MarkForDeletion`, with the digest that it sets.
  pub find_one_and_mark : Coll → String → ℕ → Bytes → Coll × Option Bool
  -- `DeleteOne`: how many were deleted.
  pub delete_one : Coll → String → ℕ → Coll × Option ℕ

module _ (m : Collection) where
  unfoldable pub get_config : m.Coll → String → Reply Config
  get_config db name = elim (m.find_one db name) [
    | none ↦ broken
    | some o ↦ elim o [ none ↦ missing | some c ↦ ok c ]
  ]

  unfoldable pub list_configs : m.Coll → List StateName → Reply (List Config)
  list_configs db filter = elim (m.find_all db filter) [ none ↦ broken | some cs ↦ ok cs ]

  -- A new document starts with version 0 in the Pending state.
  abbrev pub fresh : Config → Config
  fresh c = record c { version = 0; manifest = record (c.manifest) { state = known pending } }

  unfoldable pub create_config : m.Coll → Config → m.Coll × Reply Config
  create_config db c =
      let (db', answer) = m.insert_one db (fresh c) in
      (db', elim answer [ none ↦ broken | some _ ↦ ok (fresh c) ])

  -- The switch on the error of the driver: nil, ErrNoDocuments, or another.
  abbrev pub answer_update : Config → Option Bool → Reply Config
  answer_update c none = broken
  answer_update c (some true) = ok (raised c)
  answer_update c (some false) = missing

  -- The version is raised in the document that is written, and put back if the write fails.
  unfoldable pub update_config : m.Coll → Config → m.Coll × Reply Config
  update_config db c =
      let (db', answer) = m.find_one_and_set db c.name c.version (raised c) in
      (db', answer_update c answer)

  unfoldable pub delete_config : m.Coll → String → ℕ → m.Coll × Reply (Unit {0})
  delete_config db name version =
      let (db', answer) = m.delete_one db name version in
      (db', elim answer [ none ↦ broken | some k ↦ if k == 0 then missing else ok tt ])

  unfoldable pub mark_for_deletion : Bytes → m.Coll → String → ℕ → m.Coll × Reply (Unit {0})
  mark_for_deletion digest db name version =
      let (db', answer) = m.find_one_and_mark db name version digest in
      (db', elim answer [ none ↦ broken | some matched ↦ if matched then ok tt else missing ])

  abbrev pub mongo_store : Store
  mongo_store = record {
    Db = m.Coll;
    get_config = get_config;
    list_configs = list_configs;
    update_config = update_config;
    delete_config = delete_config;
  }

-- What MongoDB documents of these calls, where each document has a name of its own.
pub record IsCollection (m : Collection) : Type 0 where
  pub doc : m.Coll → String → Option Config
  pub find_one_doc :
      (db : m.Coll) (n : String) (o : Option Config) → m.find_one db n ≡ some o → o ≡ doc db n
  pub set_matched :
      (db : m.Coll) (n : String) (v : ℕ) (c : Config)
      → c.name ≡ n
      → (m.find_one_and_set db n v c).1 ≡ some true
      → (old : Config) × (doc db n ≡ some old)
        × (old.version ≡ v)
        × ((k : String)
            → doc (m.find_one_and_set db n v c).0 k ≡ (if str_eq n k then some c else doc db k))
  pub set_unmatched :
      (db : m.Coll) (n : String) (v : ℕ) (c : Config)
      → (m.find_one_and_set db n v c).1 ≡ some false
      → ((k : String) → doc (m.find_one_and_set db n v c).0 k ≡ doc db k)
        × ((old : Config) → doc db n ≡ some old → old.version ≢ v)

module _ (m : Collection) where
  -- The reply says whether the call matched a document.
  update_reply :
      (db : m.Coll) (c c' : Config)
      → (update_config m db c).1 ≡ ok c'
      → ((m.find_one_and_set db c.name c.version (raised c)).1 ≡ some true) × (c' ≡ raised c)
  unfolding update_config
  update_reply db c c' e =
      elim (Option-cases (m.find_one_and_set db c.name c.version (raised c)).1) [
        | inl n ↦ absurd (ground arith)
        | inr (b, f) ↦ elim (Bool-cases b) [
          | inl yes_b ↦ (ground arith, ground arith)
          | inr no_b ↦ absurd (ground arith)
        ]
      ]

  update_reply_missing :
      (db : m.Coll) (c : Config)
      → (update_config m db c).1 ≡ missing
      → (m.find_one_and_set db c.name c.version (raised c)).1 ≡ some false
  unfolding update_config
  update_reply_missing db c e =
      elim (Option-cases (m.find_one_and_set db c.name c.version (raised c)).1) [
        | inl n ↦ absurd (ground arith)
        | inr (b, f) ↦ elim (Bool-cases b) [
          | inl yes_b ↦ absurd (ground arith)
          | inr no_b ↦ ground arith
        ]
      ]

  get_reply :
      (db : m.Coll) (n : String) (c : Config)
      → get_config m db n ≡ ok c
      → m.find_one db n ≡ some (some c)
  unfolding get_config
  get_reply db n c e = elim (Option-cases (m.find_one db n)) [
    | inl f ↦ absurd (ground arith)
    | inr (o, f) ↦ elim (Option-cases o) [
      | inl g ↦ absurd (ground arith)
      | inr (d, g) ↦ ground arith
    ]
  ]

  get_reply_missing :
      (db : m.Coll) (n : String) → get_config m db n ≡ missing → m.find_one db n ≡ some none
  unfolding get_config
  get_reply_missing db n e = elim (Option-cases (m.find_one db n)) [
    | inl f ↦ absurd (ground arith)
    | inr (o, f) ↦ elim (Option-cases o) [
      | inl g ↦ ground arith
      | inr (d, g) ↦ absurd (ground arith)
    ]
  ]

-- The MongoDB store keeps the promise of optimistic locking that the interface makes, whenever
-- the collection answers as MongoDB documents.
pub mongo_store-IsLocking : (m : Collection) → IsCollection m → IsLocking (mongo_store m)
unfolding update_config
mongo_store-IsLocking m l = record {
  find = l.doc;
  get_ok = λ db n c e. sym (l.find_one_doc db n (some c) (get_reply m db n c e));
  get_missing = λ db n e. sym (l.find_one_doc db n none (get_reply_missing m db n e));
  update_ok = λ db c c' e.
      let (hit, same) = update_reply m db c c' e in
      let (old, found, version, now) = l.set_matched db c.name c.version (raised c) refl hit in
      (old, found, version, same, rw same now);
  update_missing =
      λ db c e. l.set_unmatched db c.name c.version (raised c) (update_reply_missing m db c e);
}

-- Once an update has gone through, the document that is read is the one written, with its version
-- raised, and an update made from the same version as the first does not go through: if it is
-- refused, the document that is read is still that of the first.
pub update_config_once :
    (m : Collection) (l : IsCollection m) (db : m.Coll) (a b a' : Config)
    → a.name ≡ b.name
    → a.version ≡ b.version
    → (update_config m db a).1 ≡ ok a'
    → ((c : Config) → get_config m (update_config m db a).0 a.name ≡ ok c → c ≡ raised a)
      × ((b' : Config) → (update_config m (update_config m db a).0 b).1 ≢ ok b')
      × ((c : Config)
          → (update_config m (update_config m db a).0 b).1 ≡ missing
          → get_config m (update_config m (update_config m db a).0 b).0 a.name ≡ ok c
          → c ≡ raised a)
update_config_once m l db a b a' n v e =
    let law = mongo_store-IsLocking m l in
    (
      λ c got. get_config-update_config (mongo_store m) law db a a' c e got,
      λ b'. no_lost_update (mongo_store m) law db a b a' b' n v e,
      λ c refused got. get_config-refused (mongo_store m) law db a a' b c e refused got,
    )
