-- ===== src/Spec.antt =====
-- The messages of proto/spec (nodepool.proto, manifest.proto, dns.proto, provider.proto) that make
-- up a cluster, as the Go code of proto/pb/spec holds them, and their getters of utils.go.
-- An unset message is `none` where the code tests for nil; ClusterInfo, Provider, Templates and
-- Settings are set in every cluster, and are kept by value. An int32 is its bit pattern, and a
-- `oneof` a data type with a constructor `unset`.
pub mod Task
pub mod Clear
pub mod Merge
pub mod Request
pub mod Cleared
pub mod Settled
pub mod Update
pub mod Credentials
use Prim.Native.String.{◌++◌ as str_append}
use claudie.Prelude.{
  ℕ, Bool, true, false, ◌&&◌, List, Option, none, some, String, Dict, find_func, contains_func,
  str_eq,
}

pub data NodeType : Type 0 where
  worker master api_endpoint : NodeType

pub data NodeStatus : Type 0 where
  preparing joined marked_for_deletion : NodeStatus

pub record Node : Type 0 where
  pub name : String
  pub private : String
  pub public : String
  pub node_type : NodeType
  pub username : String
  pub status : NodeStatus
  pub ssh_port : ℕ
  pub wireguard_port : ℕ

pub record Taint : Type 0 where
  pub key : String
  pub value : String
  pub effect : String

pub record AutoscalerConf : Type 0 where
  pub min : ℕ
  pub max : ℕ
  pub target_size : ℕ

pub record TemplateRepository : Type 0 where
  pub url : String
  pub commit : String
  pub commit_hash : String

pub data ProviderType : Type 0 where
  unset : ProviderType
  gcp : (key project : String) → ProviderType
  hetzner : (token : String) → ProviderType
  oci :
      (user_ocid tenancy_ocid key_fingerprint compartment_ocid private_key : String) → ProviderType
  aws : (secret_key access_key : String) → ProviderType
  azure : (subscription_id tenant_id client_id client_secret : String) → ProviderType
  cloudflare : (token account_id : String) → ProviderType
  openstack :
      (auth_url domain_id project_id credential_id credential_secret : String) → ProviderType
  exoscale : (api_key api_secret : String) → ProviderType
  cloudrift : (token : String) (team_id : Option String) → ProviderType
  verda : (client_id client_secret : String) (base_url : Option String) → ProviderType
  ovh : (client_id client_secret service_name : String) (endpoint : Option String) → ProviderType

pub record Provider : Type 0 where
  pub spec_name : String
  pub cloud_provider_name : String
  pub provider_type : ProviderType
  pub templates : TemplateRepository

pub record MachineSpec : Type 0 where
  pub cpu_count : ℕ
  pub memory : ℕ
  pub nvidia_gpu_count : ℕ
  pub nvidia_gpu_type : String

pub record DynamicNodePool : Type 0 where
  pub server_type : String
  pub image : String
  pub storage_disk_size : ℕ
  pub region : String
  pub zone : String
  pub count : ℕ
  pub provider : Provider
  pub autoscaler_config : Option AutoscalerConf
  pub machine_spec : Option MachineSpec
  pub public_key : String
  pub private_key : String
  pub cidr : String
  pub external_network_name : String
  pub spot : Bool

pub record StaticNodePool : Type 0 where
  pub node_keys : Dict String

pub data PoolType : Type 0 where
  unset : PoolType
  dynamic : DynamicNodePool → PoolType
  static : StaticNodePool → PoolType

pub record NodePool : Type 0 where
  pub type : PoolType
  pub name : String
  pub nodes : List Node
  pub is_control : Bool
  pub labels : Dict String
  pub taints : List Taint
  pub annotations : Dict String
  pub ssh_port : ℕ

pub record ClusterInfo : Type 0 where
  pub name : String
  pub hash : String
  pub node_pools : List NodePool

pub record InstallationProxy : Type 0 where
  pub mode : String
  pub endpoint : String
  pub no_proxy : String

pub record K8sCluster : Type 0 where
  pub cluster_info : ClusterInfo
  pub network : String
  pub kubeconfig : String
  pub kubernetes : String
  pub installation_proxy : Option InstallationProxy

pub data RoleType : Type 0 where
  api_server ingress : RoleType

pub record Settings : Type 0 where
  pub proxy_protocol : Bool
  pub sticky_sessions : Bool
  pub envoy_admin_port : ℕ

pub record Role : Type 0 where
  pub name : String
  pub protocol : String
  pub port : ℕ
  pub target_port : ℕ
  pub role_type : RoleType
  pub target_pools : List String
  pub settings : Settings

pub record Dns : Type 0 where
  pub dns_zone : String
  pub hostname : String
  pub provider : Provider
  pub endpoint : String
  pub alternative_names : List (String × String)

pub record LbCluster : Type 0 where
  pub cluster_info : ClusterInfo
  pub roles : List Role
  pub dns : Option Dns
  pub targeted_k8s : String
  pub used_api_endpoint : Bool

pub record Clusters : Type 0 where
  pub k8s : Option K8sCluster
  pub load_balancers : List LbCluster

-- `ClusterInfo.Id`
abbrev pub id : ClusterInfo → String
id c = str_append c.name (str_append "-" c.hash)

abbrev pub lb_id : LbCluster → String
lb_id lb = id lb.cluster_info

abbrev pub is_api_server : RoleType → Bool
is_api_server api_server = true
is_api_server ingress = false

unfoldable pub has_api_role : LbCluster → Bool
unfolding contains_func
has_api_role lb = contains_func (λ r. is_api_server r.role_type) lb.roles

unfoldable pub is_api_endpoint : LbCluster → Bool
unfolding has_api_role
is_api_endpoint lb = has_api_role lb && lb.used_api_endpoint

-- `GetDynamicNodePool`
abbrev pub dynamic_of : PoolType → Option DynamicNodePool
dynamic_of (dynamic d) = some d
dynamic_of _ = none

-- `GetStaticNodePool`
abbrev pub static_of : PoolType → Option StaticNodePool
static_of (static s) = some s
static_of _ = none

-- `nodepools.FindByName`
unfoldable pub find_by_name : String → List NodePool → Option NodePool
unfolding find_func
find_by_name name pools = find_func (λ np. str_eq np.name name) pools

-- The loadbalancer at `clusters.IndexLoadbalancerById`, if the index is not negative.
unfoldable pub find_by_id : String → List LbCluster → Option LbCluster
unfolding find_func
find_by_id target lbs = find_func (λ lb. str_eq (lb_id lb) target) lbs
