-- ===== src/Manager/Subject.antt =====
-- internal/natsutils/subjects.go: the subjects of the work queues.
use claudie.Prelude.{String}

abbrev pub ansibler_requests : String
ansibler_requests = "claudie-internal-cluster-requests-ansibler"

abbrev pub ansibler_response : String
ansibler_response = "claudie-internal-cluster-response-ansibler"

abbrev pub kuber_requests : String
kuber_requests = "claudie-internal-cluster-requests-kuber"

abbrev pub kuber_response : String
kuber_response = "claudie-internal-cluster-response-kuber"

abbrev pub kube_eleven_requests : String
kube_eleven_requests = "claudie-internal-cluster-request-kube-eleven"

abbrev pub kube_eleven_response : String
kube_eleven_response = "claudie-internal-cluster-response-kube-eleven"

abbrev pub terraformer_requests : String
terraformer_requests = "claudie-internal-cluster-request-terraformer"

abbrev pub terraformer_response : String
terraformer_response = "claudie-internal-cluster-response-terraformer"
