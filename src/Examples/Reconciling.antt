-- ===== src/Examples/Reconciling.antt =====
-- Reconciliations: witnesses.
use claudie.Prelude.{◌≡◌, refl, true, false, [], ◌∷◌, Option, none, some}
use claudie.Pools.{is_empty}
use claudie.Manifest.{State}
use claudie.Spec.{Clusters, K8sCluster, find_by_name}
use claudie.Spec.Clear.{mutable_clusters, replace_clusters}
use claudie.Spec.Credentials.{update_provider}
use claudie.Manager.Credentials.{update_credentials}
use claudie.Manager.Diff.Pools.{view_pools}
use claudie.Manager.Diff.Kubernetes.{kubernetes_diff}
use claudie.Manager.Diff.LoadBalancers.{load_balancers_diff}
use claudie.Spec.Task.{Task, upgrade_version}
use claudie.Store.Convert.{PbTaskEvent}
use claudie.Store.States.{PbClusterState, PbConfig, pb_error, pb_wait_for_pickup}
use claudie.Manager.Reconcile.{Planner, ok, reschedule, noop, should_reschedule_in_flight}
use claudie.Manager.Reconcile.Parts.{Visit, is_nil, with_in_flight}
use claudie.Manager.Reconcile.Cluster.{reconcile_cluster}
use claudie.Manager.Reconcile.Busy.Visits.{reconcile_cluster-Busy}
use claudie.Manager.Reconcile.Stays.{Stays, reconcile_cluster-Stays}
use claudie.Manager.Reconcile.Final.{no_clusters, new_entry}
use claudie.Manager.Pending.{Pending, write, pending}
use claudie.Manager.Pending.Applies.{Applied, pending-Applied}
use claudie.Prelude.{◌++◌, delete_func, contains, insert, lookup}
use claudie.Spec.{find_by_id}
use claudie.Manager.Diff.{node_pools_diff}
use claudie.Manager.Diff.LoadBalancers.Classes.{ids}
use claudie.Manager.Reconcile.Union.{clusters_union}
use claudie.Manager.Reconcile.Union.Covers.{clusters_union-ids}
use claudie.Examples.Data.{k8s, state, workers}
use claudie.Examples.Codecs.{pb_event}
use claudie.Examples.Balancing.{equal, old_lbs, new_lbs}

abbrev deletion : Clusters → PbTaskEvent
deletion c = record pb_event {
  id = "delete";
  task = Task.delete (record { k8s = c.k8s; load_balancers = c.load_balancers });
}

abbrev creation : Clusters → PbTaskEvent
creation c = record pb_event {
  id = "create";
  task = Task.create (record { k8s = c.k8s; load_balancers = c.load_balancers });
}

-- Plans nothing for a difference, and finds every node reachable.
abbrev planner : Planner
planner = record {
  Health = Unit {0};
  equal = equal;
  stage_equal = λ a b. false;
  task_equal = λ a b. false;
  to_lower = λ s. s;
  health_check = λ c. tt;
  vpn_drift = λ hc. false;
  check_nodes_status = λ c hc. ok (record {
    unknown_kubernetes_nodes = [];
    not_joined_kubernetes_nodes = [];
    unknown_load_balancers_nodes = [];
  });
  pre_kubernetes_diff = λ hc d a b. none;
  kubernetes_modifications = λ hc d a b. none;
  post_kubernetes_diff = λ hc d a b. none;
  kubernetes_deletions = λ hc d a b. none;
  load_balancers_low_priority = λ hc d a b. none;
  kubernetes_low_priority = λ hc d a b. none;
  unknown_load_balancer_nodes = λ ns d a b. ok none;
  unknown_kubernetes_nodes = λ hc ns d a b. ok none;
  schedule_delete_cluster = deletion;
  schedule_create_cluster = creation;
  schedule_refresh_vpn = λ b c. creation c;
  schedule_refresh_infrastructure = creation;
  new_uuid = "task-9";
  ticks_for_refresh = 30;
}

abbrev cluster : K8sCluster
cluster = record k8s {
  installation_proxy = some (record { mode = "off"; endpoint = ""; no_proxy = "" });
}

abbrev current : Clusters
current = record { k8s = some cluster; load_balancers = [] }

abbrev upgrade : PbTaskEvent
upgrade = record pb_event {
  task =
      Task.update (record state { k8s = some cluster; load_balancers = [] })
        (upgrade_version "1.32");
}

abbrev failed_upgrade : PbClusterState
failed_upgrade = record new_entry {
  current = current;
  state = record (new_entry.state) { status = pb_error; description = "boom" };
}

abbrev or_start : Option Visit → Visit
or_start none = (new_entry, no_clusters, noop)
or_start (some v) = v

abbrev retried : Visit
retried =
    or_start (reconcile_cluster planner current (with_in_flight (upgrade ∷ []) failed_upgrade))

there : is_nil current ≡ false
unfolding is_nil
there = refl

stays : should_reschedule_in_flight (upgrade ∷ []) ≡ true
unfolding should_reschedule_in_flight
stays = refl

retry :
    reconcile_cluster planner current (with_in_flight (upgrade ∷ []) failed_upgrade) ≡ some retried
unfolding reconcile_cluster mutable_clusters update_credentials find_by_name update_provider
    replace_clusters kubernetes_diff view_pools load_balancers_diff
retry = refl

reconcile_cluster-Stays_example : Stays upgrade [] (retried.0.in_flight)
reconcile_cluster-Stays_example =
    reconcile_cluster-Stays planner upgrade [] current failed_upgrade retried there there stays
      retry

-- A new cluster whose control plane has one nodepool.
abbrev wanted : Clusters
wanted = record {
  k8s = some (record cluster {
    cluster_info = record (cluster.cluster_info) {
      node_pools = record workers { is_control = true } ∷ [];
    };
  });
  load_balancers = [];
}

abbrev created : Visit
created = or_start (reconcile_cluster planner wanted new_entry)

creates : reconcile_cluster planner wanted new_entry ≡ some (created.0, created.1, reschedule)
unfolding reconcile_cluster
creates = refl

reconcile_cluster-Busy_example :
    (is_empty created.0.in_flight ≡ false)
    × (created.0.state.status ≡ pb_wait_for_pickup)
    × (created.0.state.description ≡ "")
reconcile_cluster-Busy_example =
    reconcile_cluster-Busy planner wanted created.1 new_entry created.0 creates

abbrev emptied : PbConfig
emptied = record {
  version = 7;
  name = "main";
  context_name = "main";
  context_namespace = "default";
  manifest = record {
    raw = "";
    checksum = none;
    last_applied_checksum = some (1 ∷ 2 ∷ []);
    state = State.pending;
    state_timestamp = none;
  };
  clusters = ("prod", new_entry) ∷ [];
}

abbrev or_same : Pending → PbConfig
or_same (write doc) = doc
or_same _ = emptied

abbrev applied : PbConfig
applied = or_same (pending planner (λ doc. some []) (record { seconds = 5; nanos = 0 }) emptied)

applies :
    pending planner (λ doc. some []) (record { seconds = 5; nanos = 0 }) emptied ≡ write applied
unfolding pending
applies = refl

pending-Applied_example : Applied emptied applied
pending-Applied_example =
    pending-Applied planner (λ doc. some []) (record { seconds = 5; nanos = 0 }) emptied applied
      applies

-- A current state and the state of a task that failed.
abbrev built : Clusters
built = record current { load_balancers = old_lbs }

abbrev partly_built : Clusters
partly_built = record current { load_balancers = new_lbs }

abbrev or_none : Option Clusters → Clusters
or_none none = no_clusters
or_none (some c) = c

abbrev together : Clusters
together = or_none (clusters_union (λ s. s) equal built partly_built)

unites : clusters_union (λ s. s) equal built partly_built ≡ some together
unfolding clusters_union kubernetes_diff view_pools load_balancers_diff node_pools_diff insert
    lookup find_by_id
unites = refl

clusters_union-ids_example :
    ids together.load_balancers
    ≡ ids old_lbs ++ delete_func (λ i. contains i (ids old_lbs)) (ids new_lbs)
clusters_union-ids_example =
    clusters_union-ids (λ s. s) equal cluster cluster built partly_built together refl refl unites
