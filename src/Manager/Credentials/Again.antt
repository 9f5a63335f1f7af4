-- ===== src/Manager/Credentials/Again.antt =====
-- updateCredentials comes to rest.
use claudie.Prelude.{
  ◌≡◌, refl, ap, ap₂, ◌∙◌, arith, eq_iff, false, ◌||◌, List, [], ◌∷◌, Option, none, some, String,
  Dict, lookup,
}
use claudie.Spec.{
  NodePool, PoolType, K8sCluster, LbCluster, Clusters, Dns, find_by_name, find_by_id, lb_id,
}
use claudie.Spec.Credentials.{Updated, update_provider_again}
use claudie.Manager.Credentials.{
  new_key, update_keys, update_pool_type, update_node_pool_credentials, update_found,
  update_node_pools, update_dns, update_lb, update_lbs, pools_of, update_k8s, update_credentials,
}

-- A second update of what `u` holds changes nothing more.
abbrev Rests : {A : Type 0} → (A → Updated A) → A → Type 0
Rests f a = f (f a).0 ≡ ((f a).0, false)

new_key_again : (o : Option String) (key : String) → Rests (new_key o) key
new_key_again none key = refl
new_key_again (some d) key = ground (arith, eq_iff key d, eq_iff d d)

-- Two parts that rest make a whole that rests.
both_rest :
    {A B C : Type 0} (pair : A → B → C) (a a' : Updated A) (b b' : Updated B)
    → a' ≡ (a.0, false)
    → b' ≡ (b.0, false)
    → ◌≡◌ {A = Updated C} (pair a'.0 b'.0, a'.1 || b'.1) (pair a.0 b.0, false)
both_rest pair a a' b b' p q = ap₂ (λ x y. (pair x.0 y.0, x.1 || y.1)) p q

update_keys_again : (desired keys : Dict String) → Rests (λ k. update_keys k desired) keys
unfolding update_keys
update_keys_again desired [] = refl
update_keys_again desired ((endpoint, key) ∷ keys) =
    both_rest (λ k ks. (endpoint, k) ∷ ks) (new_key (lookup endpoint desired) key) _
      (update_keys keys desired) _ (new_key_again (lookup endpoint desired) key)
      (update_keys_again desired keys)

update_pool_type_again : (t d : PoolType) → Rests (λ x. update_pool_type x d) t
update_pool_type_again (PoolType.dynamic t) (PoolType.dynamic d) =
    ap (λ u. (PoolType.dynamic (record t { provider = u.0 }), u.1))
      (update_provider_again t.provider d.provider)
update_pool_type_again (PoolType.static t) (PoolType.static d) =
    ap (λ u. (PoolType.static (record t { node_keys = u.0 }), u.1))
      (update_keys_again d.node_keys t.node_keys)
update_pool_type_again _ _ = refl

update_found_again : (o : Option NodePool) (np : NodePool) → Rests (λ x. update_found x o) np
unfolding update_node_pool_credentials
update_found_again none np = refl
update_found_again (some d) np =
    ap (λ u. (record np { type = u.0 }, u.1)) (update_pool_type_again np.type d.type)

name-update_found : (o : Option NodePool) (np : NodePool) → (update_found np o).0.name ≡ np.name
unfolding update_node_pool_credentials
name-update_found none np = refl
name-update_found (some d) np = refl

update_node_pools_again :
    (desired nps : List NodePool) → Rests (λ x. update_node_pools x desired) nps
unfolding update_node_pools
update_node_pools_again desired [] = refl
update_node_pools_again desired (np ∷ nps) =
    let o = find_by_name np.name desired in
    both_rest ◌∷◌ (update_found np o) _ (update_node_pools nps desired) _
      (ap (λ n. update_found (update_found np o).0 (find_by_name n desired))
          (name-update_found o np)
        ∙ update_found_again o np)
      (update_node_pools_again desired nps)

update_dns_again : (c d : Option Dns) → Rests (λ x. update_dns x d) c
update_dns_again (some c) (some d) =
    ap (λ u. (some (record c { provider = u.0 }), u.1))
      (update_provider_again c.provider d.provider)
update_dns_again none d = refl
update_dns_again (some c) none = refl

update_lb_again : (o : Option LbCluster) (lb : LbCluster) → Rests (λ x. update_lb x o) lb
unfolding update_lb
update_lb_again none lb = refl
update_lb_again (some d) lb =
    both_rest
      (λ nps dns. record lb {
        cluster_info = record (lb.cluster_info) { node_pools = nps };
        dns = dns;
      })
      (update_node_pools lb.cluster_info.node_pools d.cluster_info.node_pools) _
      (update_dns lb.dns d.dns) _
      (update_node_pools_again d.cluster_info.node_pools lb.cluster_info.node_pools)
      (update_dns_again lb.dns d.dns)

id-update_lb : (o : Option LbCluster) (lb : LbCluster) → lb_id (update_lb lb o).0 ≡ lb_id lb
unfolding update_lb
id-update_lb none lb = refl
id-update_lb (some d) lb = refl

update_lbs_again : (desired lbs : List LbCluster) → Rests (λ x. update_lbs x desired) lbs
unfolding update_lbs
update_lbs_again desired [] = refl
update_lbs_again desired (lb ∷ lbs) =
    let o = find_by_id (lb_id lb) desired in
    both_rest ◌∷◌ (update_lb lb o) _ (update_lbs lbs desired) _
      (ap (λ n. update_lb (update_lb lb o).0 (find_by_id n desired)) (id-update_lb o lb)
        ∙ update_lb_again o lb)
      (update_lbs_again desired lbs)

update_k8s_again : (d k : Option K8sCluster) → Rests (λ x. update_k8s x d) k
update_k8s_again d none = refl
update_k8s_again d (some k) =
    ap (λ u. (some (record k { cluster_info = record (k.cluster_info) { node_pools = u.0 } }), u.1))
      (update_node_pools_again (pools_of d) k.cluster_info.node_pools)

-- After the credentials of a state are updated once, updating them again changes nothing and
-- reports that nothing was updated.
pub update_credentials_again :
    (current desired : Clusters)
    → update_credentials (update_credentials current desired).0 desired
      ≡ ((update_credentials current desired).0, false)
unfolding update_credentials
update_credentials_again current desired =
    both_rest (λ k lbs. record { k8s = k; load_balancers = lbs })
      (update_k8s current.k8s desired.k8s) _
      (update_lbs current.load_balancers desired.load_balancers) _
      (update_k8s_again desired.k8s current.k8s)
      (update_lbs_again desired.load_balancers current.load_balancers)
