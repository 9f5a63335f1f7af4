-- ===== src/Manager/Handlers/Upsert/Disjoint.antt =====
-- UpsertManifest: static nodes are not shared between documents.
use claudie.Prelude.{◌≡◌, true, false, ◌⊎◌, List, Option, some, String, contains}
use claudie.Store.{Store, Config}
use claudie.Manager.Handlers.Upsert.{ManifestFile, collect_ips}

-- No address is in both lists.
abbrev pub Apart : List String → List String → Type 0
Apart xs ys = (ip : String) → contains ip xs ≡ true → contains ip ys ≡ false

-- The document is that of the manifest itself, or it is parsed and shares no static node.
abbrev pub ApartFrom : (String → Option ManifestFile) → ManifestFile → Config → Type 0
ApartFrom parse m cfg =
    (cfg.name ≡ m.name)
    ⊎ ((other : ManifestFile) × (parse cfg.manifest.raw ≡ some other)
        × Apart (collect_ips m.static_endpoints) (collect_ips other.static_endpoints))
