-- ===== src/Examples/Data.antt =====
-- A small cluster: a dynamic and a static nodepool, and two loadbalancers.
use claudie.Prelude.{true, false, List, [], ◌∷◌, none, some, String}
use claudie.Spec.{
  Node, worker, joined, NodePool, DynamicNodePool, StaticNodePool, PoolType, ProviderType,
  ClusterInfo, K8sCluster, LbCluster,
}
use claudie.Spec.Task.{TaskState, UpdateState}

abbrev pub node : String → String → Node
node name public = record {
  name = name;
  private = "";
  public = public;
  node_type = worker;
  username = "root";
  status = joined;
  ssh_port = 22;
  wireguard_port = 51820;
}

abbrev pub nodes : List Node
nodes = node "w-1" "1.1.1.1" ∷ node "w-2" "1.1.1.2" ∷ []

abbrev pub dyn : DynamicNodePool
dyn = record {
  server_type = "cpx11";
  image = "ubuntu";
  storage_disk_size = 50;
  region = "";
  zone = "";
  count = 2;
  provider = record {
    spec_name = "hetzner-1";
    cloud_provider_name = "hetzner";
    provider_type = ProviderType.hetzner "token";
    templates = record { url = ""; commit = ""; commit_hash = "" };
  };
  autoscaler_config = some (record { min = 1; max = 3; target_size = 2 });
  machine_spec = none;
  public_key = "";
  private_key = "";
  cidr = "10.0.0.0/24";
  external_network_name = "";
  spot = false;
}

abbrev pub workers : NodePool
workers = record {
  type = PoolType.dynamic dyn;
  name = "workers";
  nodes = nodes;
  is_control = false;
  labels = [];
  taints = [];
  annotations = [];
  ssh_port = 22;
}

abbrev pub stt : StaticNodePool
stt = record { node_keys = ("1.1.1.1", "key-1") ∷ ("1.1.1.2", "key-2") ∷ [] }

abbrev pub servers : NodePool
servers = record workers { type = PoolType.static stt; name = "servers" }

abbrev pub info : String → ClusterInfo
info name = record { name = name; hash = "abc"; node_pools = workers ∷ [] }

abbrev pub k8s : K8sCluster
k8s = record {
  cluster_info = info "prod";
  network = "192.168.2.0/24";
  kubeconfig = "";
  kubernetes = "1.31";
  installation_proxy = none;
}

abbrev pub lb : String → LbCluster
lb name = record {
  cluster_info = info name;
  roles = [];
  dns = none;
  targeted_k8s = "prod";
  used_api_endpoint = false;
}

abbrev pub state : TaskState
state = record { k8s = some k8s; load_balancers = lb "lb-1" ∷ lb "lb-2" ∷ [] }

abbrev pub received : List LbCluster
received = record (lb "lb-2") { used_api_endpoint = true } ∷ []

abbrev pub new_k8s : K8sCluster
new_k8s = record k8s { kubeconfig = "config" }

abbrev pub report : UpdateState
report = record { k8s = some new_k8s; load_balancers = some received }

abbrev pub new_state : TaskState
new_state = record {
  k8s = some new_k8s;
  load_balancers = lb "lb-1" ∷ record (lb "lb-2") { used_api_endpoint = true } ∷ [];
}

-- The id is that of another cluster.
abbrev pub foreign : UpdateState
foreign = record report { k8s = some (record k8s { cluster_info = info "other" }) }
