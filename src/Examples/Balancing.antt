-- ===== src/Examples/Balancing.antt =====
-- Differences of loadbalancers, and credentials that are updated: witnesses.
use claudie.Prelude.{
  ◌==◌, ◌≡◌, refl, Bool, true, false, ◌&&◌, not, List, [], ◌∷◌, Option, none, some, String, str_eq,
}
use claudie.Spec.{
  Settings, Role, Dns, LbCluster, Clusters, ProviderType, PoolType, api_server, ingress, NodePool,
}
use claudie.Manager.Credentials.{update_credentials}
use claudie.Manager.Credentials.Again.{update_credentials_again}
use claudie.Manager.Diff.Endpoint.{determine_lb_api_endpoint_change}
use claudie.Manager.Diff.Endpoint.Choice.{Means, determine-Means}
use claudie.Manager.Diff.LoadBalancers.{ProtoEqual, LoadBalancersDiffResult, load_balancers_diff}
use claudie.Manager.Diff.LoadBalancers.Found.{IsClassified, load_balancers_diff-IsClassified}
use claudie.Manager.Diff.Pools.{view_pools}
use claudie.Examples.Data.{lb, k8s, dyn, workers}

abbrev bool_eq : Bool → Bool → Bool
bool_eq true b = b
bool_eq false b = not b

abbrev settings_eq : Settings → Settings → Bool
settings_eq a b =
    (bool_eq a.proxy_protocol b.proxy_protocol && bool_eq a.sticky_sessions b.sticky_sessions)
    && (a.envoy_admin_port == b.envoy_admin_port)

abbrev dns_eq : Dns → Dns → Bool
dns_eq a b =
    (str_eq a.dns_zone b.dns_zone && str_eq a.hostname b.hostname) && str_eq a.endpoint b.endpoint

abbrev pub equal : ProtoEqual
equal = record { settings = settings_eq; dns = dns_eq }

abbrev api_role : Role
api_role = record {
  name = "api";
  protocol = "tcp";
  port = 6443;
  target_port = 6443;
  role_type = api_server;
  target_pools = "workers" ∷ [];
  settings = record { proxy_protocol = false; sticky_sessions = false; envoy_admin_port = 0 };
}

abbrev web_role : Role
web_role = record api_role { name = "web"; role_type = ingress; port = 443; target_port = 30443 }

abbrev zone : String → Dns
zone endpoint = record {
  dns_zone = "example.com";
  hostname = "api";
  provider = dyn.provider;
  endpoint = endpoint;
  alternative_names = [];
}

abbrev pub api_lb : String → LbCluster
api_lb name = record (lb name) { roles = api_role ∷ []; dns = some (zone "api.example.com") }

abbrev pub old_lbs : List LbCluster
old_lbs = record (api_lb "lb-1") { used_api_endpoint = true } ∷ lb "lb-2" ∷ []

abbrev pub new_lbs : List LbCluster
new_lbs = record (lb "lb-2") { roles = web_role ∷ [] } ∷ api_lb "lb-3" ∷ []

determine-Means_example : Means old_lbs new_lbs (determine_lb_api_endpoint_change old_lbs new_lbs)
determine-Means_example = determine-Means old_lbs new_lbs

abbrev nothing : LoadBalancersDiffResult
nothing = record {
  added = [];
  deleted = [];
  modified = [];
  api_endpoint = determine_lb_api_endpoint_change [] [];
}

abbrev or_nothing : Option LoadBalancersDiffResult → LoadBalancersDiffResult
or_nothing none = nothing
or_nothing (some r) = r

abbrev differences : LoadBalancersDiffResult
differences = or_nothing (load_balancers_diff equal old_lbs new_lbs)

differ : load_balancers_diff equal old_lbs new_lbs ≡ some differences
unfolding load_balancers_diff view_pools
differ = refl

load_balancers_diff-IsClassified_example : IsClassified old_lbs new_lbs differences
load_balancers_diff-IsClassified_example =
    load_balancers_diff-IsClassified equal old_lbs new_lbs differences differ

abbrev fresh : NodePool
fresh = record workers {
  type = PoolType.dynamic (record dyn {
    provider = record (dyn.provider) { provider_type = ProviderType.hetzner "token-2" };
  });
}

abbrev before : Clusters
before = record { k8s = some k8s; load_balancers = old_lbs }

abbrev desired : Clusters
desired = record {
  k8s = some (record k8s { cluster_info = record (k8s.cluster_info) { node_pools = fresh ∷ [] } });
  load_balancers = new_lbs;
}

update_credentials_again_example :
    update_credentials (update_credentials before desired).0 desired
    ≡ ((update_credentials before desired).0, false)
update_credentials_again_example = update_credentials_again before desired
