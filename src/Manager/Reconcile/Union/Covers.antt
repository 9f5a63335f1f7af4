-- ===== src/Manager/Reconcile/Union/Covers.antt =====
-- clustersUnion: the loadbalancers of the union.
use claudie.Prelude.{
  ◌≡◌, refl, List, [], ◌∷◌, ◌++◌, some, String, Dict, contains, delete_func, str_eq, str_eq-eq,
  arith, ap, sym, ◌∙◌, append-nil, Bool-cases, Option-cases, inl, inr,
}
use claudie.Spec.{K8sCluster, LbCluster, Clusters, lb_id, find_by_id}
use claudie.Manager.Diff.Kubernetes.{kubernetes_diff}
use claudie.Manager.Diff.LoadBalancers.{
  ProtoEqual, ModifiedLoadBalancer, LoadBalancerIdentifier, load_balancers_diff,
}
use claudie.Manager.Diff.LoadBalancers.Classes.{ids, names, append_next}
use claudie.Manager.Diff.LoadBalancers.Found.{load_balancers_diff-IsClassified}
use claudie.Manager.Reconcile.Union.{
  merge_pools, add_lbs, merge_lb, merge_at, merge_lbs, union_of, clusters_union,
}

id-find_by_id :
    (k : String) (lbs : List LbCluster) (lb : LbCluster) → find_by_id k lbs ≡ some lb → lb_id lb ≡ k
unfolding find_by_id
id-find_by_id k [] lb h = absurd (cc h)
id-find_by_id k (x ∷ lbs) lb h = elim (Bool-cases (str_eq (lb_id x) k)) [
  | inl e ↦ let same : x ≡ lb = ground arith in ap lb_id (sym same) ∙ str_eq-eq (lb_id x) k e
  | inr e ↦ id-find_by_id k lbs lb (ground arith)
]

ids-append : (xs ys : List LbCluster) → ids (xs ++ ys) ≡ ids xs ++ ids ys
ids-append [] ys = refl
ids-append (x ∷ xs) ys = ap (λ l. lb_id x ∷ l) (ids-append xs ys)

ids-add_lbs :
    (as_ : List LoadBalancerIdentifier) (from into lbs : List LbCluster)
    → add_lbs as_ from into ≡ some lbs
    → ids lbs ≡ ids into ++ names as_
unfolding add_lbs
ids-add_lbs [] from into lbs h =
    let same : into ≡ lbs = ground arith in ap ids (sym same) ∙ sym (append-nil (ids into))
ids-add_lbs (a ∷ as_) from into lbs h = elim (Option-cases (find_by_id a.id from)) [
  | inl n ↦ absurd (ground arith)
  | inr (lb, n) ↦
      ids-add_lbs as_ from (into ++ lb ∷ []) lbs (ground arith)
      ∙ ap (λ l. l ++ names as_) (ids-append into (lb ∷ []))
      ∙ append_next (ids into) (lb_id lb) (names as_)
      ∙ ap (λ k. ids into ++ k ∷ names as_) (id-find_by_id a.id from lb n)
]

id-merge_lb :
    (m : ModifiedLoadBalancer) (nlb clb lb : LbCluster)
    → merge_lb m nlb clb ≡ some lb
    → lb_id lb ≡ lb_id clb
unfolding merge_lb
id-merge_lb m nlb clb lb h =
    elim (Option-cases
      (merge_pools m.dynamic m.static nlb.cluster_info.node_pools clb.cluster_info.node_pools)) [
        | inl n ↦ absurd (ground arith)
        | inr (nps, n) ↦ ground arith
      ]

ids-merge_at :
    (k : String) (m : ModifiedLoadBalancer) (nlb : LbCluster) (into lbs : List LbCluster)
    → merge_at k m nlb into ≡ some lbs
    → ids lbs ≡ ids into
unfolding merge_at
ids-merge_at k m nlb [] lbs h = absurd (cc h)
ids-merge_at k m nlb (x ∷ into) lbs h = elim (Bool-cases (str_eq (lb_id x) k)) [
  | inl e ↦ elim (Option-cases (merge_lb m nlb x)) [
    | inl n ↦ absurd (ground arith)
    | inr (x', n) ↦
        let same : x' ∷ into ≡ lbs = ground arith in
        ap ids (sym same) ∙ ap (λ i. i ∷ ids into) (id-merge_lb m nlb x x' n)
  ]
  | inr e ↦ elim (Option-cases (merge_at k m nlb into)) [
    | inl n ↦ absurd (ground arith)
    | inr (rest, n) ↦
        let same : x ∷ rest ≡ lbs = ground arith in
        ap ids (sym same) ∙ ap (λ l. lb_id x ∷ l) (ids-merge_at k m nlb into rest n)
  ]
]

ids-merge_lbs :
    (entries : Dict ModifiedLoadBalancer) (from into lbs : List LbCluster)
    → merge_lbs entries from into ≡ some lbs
    → ids lbs ≡ ids into
unfolding merge_lbs
ids-merge_lbs [] from into lbs h = let same : into ≡ lbs = ground arith in ap ids (sym same)
ids-merge_lbs ((k, m) ∷ entries) from into lbs h = elim (Option-cases (find_by_id k from)) [
  | inl n ↦ absurd (ground arith)
  | inr (nlb, n) ↦ elim (Option-cases (merge_at k m nlb into)) [
    | inl o ↦ absurd (ground arith)
    | inr (mid, o) ↦
        ids-merge_lbs entries from mid lbs (ground arith) ∙ ids-merge_at k m nlb into mid o
  ]
]

module _ (to_lower : String → String) (eq : ProtoEqual) where
  union_of-ids :
      (k k' : K8sCluster) (lbs lbs' : List LbCluster) (c : Clusters)
      → union_of to_lower eq k lbs k' lbs' ≡ some c
      → ids c.load_balancers ≡ ids lbs ++ delete_func (λ i. contains i (ids lbs)) (ids lbs')
  union_of-ids k k' lbs lbs' c h = elim (Option-cases (kubernetes_diff to_lower k k')) [
    | inl n ↦ absurd (ground arith)
    | inr (d, n) ↦ elim (Option-cases (load_balancers_diff eq lbs lbs')) [
      | inl n1 ↦ absurd (ground arith)
      | inr (e, n1) ↦
          elim (Option-cases
            (merge_pools d.dynamic d.static k'.cluster_info.node_pools k.cluster_info.node_pools)) [
              | inl n2 ↦ absurd (ground arith)
              | inr (nps, n2) ↦ elim (Option-cases (add_lbs e.added lbs' lbs)) [
                | inl n3 ↦ absurd (ground arith)
                | inr (more, n3) ↦ elim (Option-cases (merge_lbs e.modified lbs' more)) [
                  | inl n4 ↦ absurd (ground arith)
                  | inr (all, n4) ↦
                      let same : all ≡ c.load_balancers = ground arith in
                      ap ids (sym same)
                      ∙ ids-merge_lbs e.modified lbs' more all n4
                      ∙ ids-add_lbs e.added lbs' lbs more n3
                      ∙ ap (λ l. ids lbs ++ l)
                          (load_balancers_diff-IsClassified eq lbs lbs' e n1).added
                ]
              ]
            ]
    ]
  ]

  -- Where both states have a kubernetes cluster, their union, if it does not panic, has the loadbalancers
  -- of the first one, by id and in order, and behind them those of the second one whose ids the first
  -- one lacks.
  pub clusters_union-ids :
      (k k' : K8sCluster) (old modified c : Clusters)
      → old.k8s ≡ some k
      → modified.k8s ≡ some k'
      → clusters_union to_lower eq old modified ≡ some c
      → ids c.load_balancers
        ≡ ids old.load_balancers
          ++ delete_func (λ i. contains i (ids old.load_balancers)) (ids modified.load_balancers)
  unfolding clusters_union
  clusters_union-ids k k' old modified c a b h =
      union_of-ids k k' old.load_balancers modified.load_balancers c (ground arith)
