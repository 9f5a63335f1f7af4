-- ===== src/Store/Locking.antt =====
-- What api.go promises of a store: optimistic locking by the version of a document.
use claudie.Prelude.{
  ℕ, ◌≡◌, ◌≢◌, ◌+◌, ◌%◌, ◌^◌, Option, none, some, String, str_eq, if◌then◌else◌, arith, eq_iff,
}
use claudie.Store.{Store, Config, ok, missing}

-- `config.Version += 1` on a uint64.
abbrev pub next_version : ℕ → ℕ
next_version v = (v + 1) % 2 ^ 64

abbrev pub raised : Config → Config
raised c = record c { version = next_version c.version }

-- `find` is the document of a name. After an error other than ErrNotFoundOrDirty nothing is known.
pub record IsLocking (st : Store) : Type 0 where
  pub find : st.Db → String → Option Config
  pub get_ok :
      (db : st.Db) (n : String) (c : Config) → st.get_config db n ≡ ok c → find db n ≡ some c
  pub get_missing : (db : st.Db) (n : String) → st.get_config db n ≡ missing → find db n ≡ none
  pub update_ok :
      (db : st.Db) (c c' : Config)
      → (st.update_config db c).1 ≡ ok c'
      → (old : Config) × (find db c.name ≡ some old)
        × (old.version ≡ c.version)
        × (c' ≡ raised c)
        × ((n : String)
            → find (st.update_config db c).0 n ≡ (if str_eq c.name n then some c' else find db n))
  pub update_missing :
      (db : st.Db) (c : Config)
      → (st.update_config db c).1 ≡ missing
      → ((n : String) → find (st.update_config db c).0 n ≡ find db n)
        × ((old : Config) → find db c.name ≡ some old → old.version ≢ c.version)

module _ (st : Store) (l : IsLocking st) where
  find-update_config :
      (db : st.Db) (a a' : Config)
      → (st.update_config db a).1 ≡ ok a'
      → l.find (st.update_config db a).0 a.name ≡ some (raised a)
  find-update_config db a a' e =
      let (old, found, same, is_raised, others) = l.update_ok db a a' e in
      ground (arith, others a.name, eq_iff a.name a.name)

  -- The document that is read once an update went through.
  pub get_config-update_config :
      (db : st.Db) (a a' c : Config)
      → (st.update_config db a).1 ≡ ok a'
      → st.get_config (st.update_config db a).0 a.name ≡ ok c
      → c ≡ raised a
  get_config-update_config db a a' c e got =
      ground (arith, find-update_config db a a' e, l.get_ok (st.update_config db a).0 a.name c got)

  -- The document that is read once another update was refused behind it.
  pub get_config-refused :
      (db : st.Db) (a a' b c : Config)
      → (st.update_config db a).1 ≡ ok a'
      → (st.update_config (st.update_config db a).0 b).1 ≡ missing
      → st.get_config (st.update_config (st.update_config db a).0 b).0 a.name ≡ ok c
      → c ≡ raised a
  get_config-refused db a a' b c e refused got = ground (
    arith,
    find-update_config db a a' e,
    (l.update_missing (st.update_config db a).0 b refused).0 a.name,
    l.get_ok (st.update_config (st.update_config db a).0 b).0 a.name c got,
  )

  pub no_lost_update :
      (db : st.Db) (a b a' b' : Config)
      → a.name ≡ b.name
      → a.version ≡ b.version
      → (st.update_config db a).1 ≡ ok a'
      → (st.update_config (st.update_config db a).0 b).1 ≢ ok b'
  no_lost_update db a b a' b' n v ea eb =
      let (old, found, same, is_raised, others) = l.update_ok db a a' ea in
      let (old', found', same', _, _) = l.update_ok (st.update_config db a).0 b b' eb in
      let now : l.find (st.update_config db a).0 b.name ≡ some a' =
        ground (arith, others b.name, eq_iff a.name b.name) in
      absurd (ground arith)
