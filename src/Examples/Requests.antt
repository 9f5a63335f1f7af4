-- ===== src/Examples/Requests.antt =====
-- Requests that the manager answers: witnesses.
use claudie.Prelude.{
  refl, true, List, [], ◌∷◌, Option, some, String, Dict, arith, map, str_eq, if◌then◌else◌,
}
use claudie.Manifest.{State, known}
use claudie.Spec.{Clusters}
use claudie.Store.{Config, Bytes, Reply, ok}
use claudie.Manager.Handlers.{resize, mark, edit_clusters}
use claudie.Manager.Handlers.Range.{InRange, RangedClusters, Answers}
use claudie.Manager.Handlers.Edits.{edits-Ranged}
use claudie.Manager.Handlers.Upsert.{ManifestFile, UpsertRequest}
use claudie.Examples.Data.{k8s, lb}
use claudie.Examples.Tables.{doc_with}

abbrev clusters : Clusters
clusters = record { k8s = some k8s; load_balancers = lb "lb-1" ∷ [] }

abbrev within : InRange (record { min = 1; max = 3; target_size = 2 })
within = record { natural = omega arith; word = omega arith; above = refl; below = refl }

edits-Ranged_example :
    Answers RangedClusters (edit_clusters (resize 3) (some "lb-1-abc") "workers" clusters)
    × Answers RangedClusters (edit_clusters (mark "w-1" true) (some "lb-1-abc") "workers" clusters)
edits-Ranged_example =
    edits-Ranged 3 "w-1" true (some "lb-1-abc") "workers" clusters (omega arith)
      ((within, tt), ((within, tt), tt))

-- The raw manifest is the name, and its static node has an address of its own.
abbrev parse : String → Option ManifestFile
parse raw = some (record {
  name = raw;
  static_endpoints = ((if str_eq raw "main" then "10.0.0.1" else "10.0.0.2") ∷ []) ∷ [];
})

abbrev main_doc : Config
main_doc = doc_with (known State.pending) []

abbrev other_doc : Config
other_doc = record main_doc {
  name = "other";
  manifest = record (main_doc.manifest) { raw = "other" };
}

abbrev stored : Dict Config
stored = ("main", main_doc) ∷ ("other", other_doc) ∷ []

abbrev list_all : Dict Config → Reply (List Config)
list_all docs = ok (map (λ e. e.1) docs)

abbrev digest : String → Bytes
digest s = 9 ∷ []

abbrev request : UpsertRequest
request = record {
  name = "main";
  context_name = "main";
  context_namespace = "default";
  raw = "main";
  state = State.pending;
}

abbrev file : ManifestFile
file = record { name = "main"; static_endpoints = ("10.0.0.1" ∷ []) ∷ [] }

abbrev taken : Config
taken = record main_doc {
  version = 8;
  context_name = "main";
  context_namespace = "default";
  manifest = record (main_doc.manifest) { raw = "main"; checksum = some (9 ∷ []) };
}
