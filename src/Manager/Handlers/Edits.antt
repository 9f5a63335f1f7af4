-- ===== src/Manager/Handlers/Edits.antt =====
-- NodePoolUpdateTargetSize and MarkNodeForDeletion: both keep the ranges of the autoscaler.
use claudie.Prelude.{
  ℕ, ◌≡◌, refl, ◌<◌, ◌^◌, Bool, List, [], ◌∷◌, Option, none, some, String, All, arith, subst, sym,
  Bool-cases, inl, inr, str_eq,
}
use claudie.Spec.{Node, NodePool, PoolType, AutoscalerConf, K8sCluster, LbCluster, Clusters, lb_id}
use claudie.Manager.Handlers.{
  not_found, answer, refused, and_then, set_target, resize_autoscaled, resize_type, resize,
  decrement, shrink_autoscaled, shrink_type, mark_first, mark, Edit, edit_pool, edit_lb, edit_k8s,
  edit_clusters,
}
use claudie.Manager.Handlers.Range.{
  InRange, RangedConf, RangedType, Ranged, RangedLb, RangedK8s, RangedClusters, Answers,
  and_then-Answers, set_target-InRange, decrement-InRange,
}

resize_type-Ranged :
    (t : PoolType) (nodes : List Node) (size : ℕ)
    → size < 2 ^ 32
    → RangedType t
    → Answers RangedType (resize_type t nodes size)
resize_type-Ranged PoolType.unset nodes size w r = tt
resize_type-Ranged (PoolType.static s) nodes size w r = tt
resize_type-Ranged (PoolType.dynamic d) nodes size w r = by_conf d.autoscaler_config r refl
  where
    by_conf :
        (o : Option AutoscalerConf)
        → RangedConf o
        → d.autoscaler_config ≡ o
        → Answers RangedType (resize_autoscaled d o size)
    by_conf none r e = rw e tt
    by_conf (some a) r e =
        and_then-Answers InRange RangedType (set_target a size) _ (λ x h. h)
          (set_target-InRange a size w r)

shrink_type-Ranged :
    (t : PoolType) (nodes : List Node) (should : Bool)
    → RangedType t
    → Answers RangedType (shrink_type t nodes should)
shrink_type-Ranged PoolType.unset nodes should r = tt
shrink_type-Ranged (PoolType.static s) nodes should r = tt
shrink_type-Ranged (PoolType.dynamic d) nodes should r = by_conf d.autoscaler_config r refl
  where
    by_conf :
        (o : Option AutoscalerConf)
        → RangedConf o
        → d.autoscaler_config ≡ o
        → Answers RangedType (shrink_autoscaled d o should)
    by_conf none r e = rw e tt
    by_conf (some a) r e =
        and_then-Answers InRange RangedType (decrement a should) _ (λ x h. h)
          (decrement-InRange a should r)

-- The edit of a nodepool keeps it in its range.
abbrev pub KeepsRange : Edit → Type 0
KeepsRange f = (np : NodePool) → Ranged np → Answers Ranged (f np)

resize-KeepsRange : (size : ℕ) → size < 2 ^ 32 → KeepsRange (resize size)
unfolding resize
resize-KeepsRange size w np r =
    and_then-Answers RangedType Ranged (resize_type np.type np.nodes size) _ (λ x h. h)
      (resize_type-Ranged np.type np.nodes size w r)

mark-KeepsRange : (name : String) (should : Bool) → KeepsRange (mark name should)
unfolding mark
mark-KeepsRange name should np r = by_nodes (mark_first name np.nodes) refl
  where
    by_nodes :
        (o : Option (List Node))
        → mark_first name np.nodes ≡ o
        → Answers Ranged (mark name should np)
    by_nodes none e =
        let got : mark name should np ≡ refused not_found = ground arith in
        subst (Answers Ranged) (sym got) tt
    by_nodes (some nodes) e =
        let r' = shrink_type np.type np.nodes should in
        let got : mark name should np
            ≡ and_then r' (λ x. answer (record np { type = x.0; nodes = nodes }, x.1)) =
          ground arith in
        subst (Answers Ranged) (sym got) (
          and_then-Answers RangedType Ranged r' _ (λ x h. h)
            (shrink_type-Ranged np.type np.nodes should r))

module _ (f : Edit) (k : KeepsRange f) (name : String) where
  edit_pool-Ranged :
      (nps : List NodePool) → All Ranged nps → Answers (All Ranged) (edit_pool f name nps)
  unfolding edit_pool
  edit_pool-Ranged [] a = tt
  edit_pool-Ranged (np ∷ nps) (r, a) = elim (Bool-cases (str_eq np.name name)) [
    | inl e ↦ rw e (and_then-Answers Ranged (All Ranged) (f np) _ (λ x h. (h, a)) (k np r))
    | inr e ↦ rw e (
        and_then-Answers (All Ranged) (All Ranged) (edit_pool f name nps) _ (λ x h. (r, h))
          (edit_pool-Ranged nps a))
  ]

  edit_lb-Ranged :
      (id : String) (lbs : List LbCluster)
      → All RangedLb lbs
      → Answers (All RangedLb) (edit_lb f id name lbs)
  unfolding edit_lb
  edit_lb-Ranged id [] a = tt
  edit_lb-Ranged id (lb ∷ lbs) (r, a) = elim (Bool-cases (str_eq (lb_id lb) id)) [
    | inl e ↦ rw e (
        and_then-Answers (All Ranged) (All RangedLb) (edit_pool f name lb.cluster_info.node_pools) _
          (λ x h. (h, a)) (edit_pool-Ranged lb.cluster_info.node_pools r))
    | inr e ↦ rw e (
        and_then-Answers (All RangedLb) (All RangedLb) (edit_lb f id name lbs) _ (λ x h. (r, h))
          (edit_lb-Ranged id lbs a))
  ]

  edit_k8s-Ranged : (o : Option K8sCluster) → RangedK8s o → Answers RangedK8s (edit_k8s f name o)
  edit_k8s-Ranged none r = tt
  edit_k8s-Ranged (some c) r =
      and_then-Answers (All Ranged) RangedK8s (edit_pool f name c.cluster_info.node_pools) _
        (λ x h. h) (edit_pool-Ranged c.cluster_info.node_pools r)

  edit_clusters-Ranged :
      (o : Option String) (c : Clusters)
      → RangedClusters c
      → Answers RangedClusters (edit_clusters f o name c)
  unfolding edit_clusters
  edit_clusters-Ranged none c (r, a) =
      and_then-Answers RangedK8s RangedClusters (edit_k8s f name c.k8s) _ (λ x h. (h, a))
        (edit_k8s-Ranged c.k8s r)
  edit_clusters-Ranged (some id) c (r, a) =
      and_then-Answers (All RangedLb) RangedClusters (edit_lb f id name c.load_balancers) _
        (λ x h. (r, h)) (edit_lb-Ranged id c.load_balancers a)

-- Whatever size the autoscaler asks for and whatever node it deletes, in the kubernetes cluster or in
-- a loadbalancer: if every autoscaled nodepool has a target size between its minimum, which is not
-- negative, and its maximum, then so it is in the clusters that are written back. Sizes are int32
-- and do not wrap around.
pub edits-Ranged :
    (size : ℕ) (node : String) (should : Bool) (lb : Option String) (name : String) (c : Clusters)
    → size < 2 ^ 32
    → RangedClusters c
    → Answers RangedClusters (edit_clusters (resize size) lb name c)
      × Answers RangedClusters (edit_clusters (mark node should) lb name c)
edits-Ranged size node should lb name c w r = (
  edit_clusters-Ranged (resize size) (resize-KeepsRange size w) name lb c r,
  edit_clusters-Ranged (mark node should) (mark-KeepsRange node should) name lb c r,
)
