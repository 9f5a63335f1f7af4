-- ===== src/Manager/Diff/LoadBalancers/Found.antt =====
-- LoadBalancersDiff: the loadbalancers that its result names.
use claudie.Prelude.{
  ℕ, ◌+◌, ◌≡◌, refl, true, false, List, [], ◌∷◌, ◌++◌, Option, none, some, String, All, lookup,
  lookup-insert, contains, delete_func, str_eq, str_eq-eq, if◌then◌else◌, arith, ap, sym, subst,
  ◌∙◌, Bool-cases, Option-cases, inl, inr, append-nil, length,
}
use claudie.Spec.{LbCluster, lb_id}
use claudie.Manager.Diff.LoadBalancers.{
  ProtoEqual, LoadBalancerIdentifier, ModifiedLoadBalancer, LoadBalancersDiffResult, Changes,
  index_loadbalancer_by_id, added_from, diff_entry, diff_lb, diff_old, is_modified, keep_entry,
  stored_entry, load_balancers_diff,
}
use claudie.Prelude.{delete_func-append}
use claudie.Manager.Diff.Pools.{node_pools_view}
use claudie.Manager.Diff.Endpoint.{determine_lb_api_endpoint_change}
use claudie.Manager.Diff.LoadBalancers.Classes.{
  ids, names, IsAt, Indexed, is_some-index, names-added_from, names_snoc, All-snoc, at_next, pass,
  count_pass, added_from-IsAt, at_index, append_next,
}

names_one :
    (acc : List LoadBalancerIdentifier) (a : LoadBalancerIdentifier)
    → names (acc ++ a ∷ []) ≡ names acc ++ a.id ∷ []
names_one acc a = sym (append-nil _) ∙ names_snoc acc a []

module _ (eq : ProtoEqual) (ks js : List String) where
  -- What holds of the two results of the loop, which has passed the ids `before`.
  record Classed (before : List String) (acc : Changes) : Type 0 where
    gone : names acc.0 ≡ delete_func (λ k. contains k js) before
    at : All (IsAt ks) acc.0
    entries : (k : String) (m : ModifiedLoadBalancer) → lookup k acc.1 ≡ some m → Indexed ks js k m

  single :
      (k : String)
      → delete_func (λ j. contains j js) (k ∷ []) ≡ (if contains k js then [] else k ∷ [])
  unfolding delete_func
  single k = refl

  delete_func-snoc :
      (before : List String) (k : String)
      → delete_func (λ j. contains j js) (before ++ k ∷ [])
        ≡ delete_func (λ j. contains j js) before ++ (if contains k js then [] else k ∷ [])
  delete_func-snoc before k =
      delete_func-append (λ j. contains j js) before (k ∷ [])
      ∙ ap (λ l. delete_func (λ j. contains j js) before ++ l) (single k)

  diff_entry-idx :
      (i : ℕ) (old : LbCluster) (j : ℕ) (d : LbCluster) (m : ModifiedLoadBalancer)
      → diff_entry eq i old j d ≡ some m
      → (m.current_idx ≡ i) × (m.desired_idx ≡ j)
  unfolding diff_entry
  diff_entry-idx i old j d m h = elim (Option-cases (node_pools_view old.cluster_info.node_pools)) [
    | inl e ↦ absurd (ground arith)
    | inr (o, e) ↦ elim (Option-cases (node_pools_view d.cluster_info.node_pools)) [
      | inl f ↦ absurd (ground arith)
      | inr (n, f) ↦ (ground arith, ground arith)
    ]
  ]

  keep_entry-Indexed :
      (k : String) (m : ModifiedLoadBalancer) (acc : Changes)
      → ((j : String) (x : ModifiedLoadBalancer) → lookup j acc.1 ≡ some x → Indexed ks js j x)
      → Indexed ks js k m
      → (j : String) (x : ModifiedLoadBalancer) → lookup j (keep_entry eq k m acc).1 ≡ some x
      → Indexed ks js j x
  keep_entry-Indexed k m acc h now j x e = elim (Bool-cases (is_modified eq m)) [
    | inr no_change ↦ h j x (ground arith)
    | inl change ↦ elim (Bool-cases (str_eq k j)) [
      | inl same ↦
          let is_k = str_eq-eq k j same in
          let is_m : stored_entry eq m ≡ x =
            ground (arith, change, same, lookup-insert k j (stored_entry eq m) acc.1) in
          subst (λ y. Indexed ks js j y) is_m (subst (λ i. Indexed ks js i m) is_k now)
      | inr other ↦
          h j x (ground (arith, change, other, lookup-insert k j (stored_entry eq m) acc.1))
    ]
  ]

  diff_lb-Classed :
      (before : List String) (i : ℕ) (old : LbCluster) (rest desired : List LbCluster)
      (o : Option (ℕ × LbCluster)) (acc acc' : Changes)
      → i ≡ length before
      → ks ≡ before ++ ids (old ∷ rest)
      → js ≡ ids desired
      → index_loadbalancer_by_id (lb_id old) 0 desired ≡ o
      → Classed before acc
      → diff_lb eq i old o acc ≡ some acc'
      → Classed (before ++ lb_id old ∷ []) acc'
  diff_lb-Classed before i old rest desired none acc acc' at all jd n c h =
      let k = lb_id old in
      let here : LoadBalancerIdentifier = record { id = k; index = i } in
      let absent : contains k js ≡ false = rw jd (ground (arith, n, is_some-index k 0 desired)) in
      let same : (acc.0 ++ here ∷ [], acc.1) ≡ acc' = ground arith in
      subst (Classed (before ++ k ∷ [])) same (record {
        gone =
            names_one acc.0 here
            ∙ ap (λ l. l ++ k ∷ []) c.gone
            ∙ sym (delete_func-snoc before k ∙ rw absent refl);
        at = All-snoc (IsAt ks) acc.0 here c.at (at_next ks before i old rest at all);
        entries = c.entries;
      })
  diff_lb-Classed before i old rest desired (some (j, d)) acc acc' at all jd n c h =
      elim (Option-cases (diff_entry eq i old j d)) [
        | inl e ↦ absurd (ground arith)
        | inr (m, e) ↦
            let k = lb_id old in
            let present : contains k js ≡ true =
              rw jd (ground (arith, n, is_some-index k 0 desired)) in
            let same : keep_entry eq k m acc ≡ acc' = ground arith in
            subst (Classed (before ++ k ∷ [])) same (record {
              gone = c.gone ∙ sym (delete_func-snoc before k ∙ rw present (append-nil _));
              at = c.at;
              entries = keep_entry-Indexed k m acc c.entries (
                rw (diff_entry-idx i old j d m e).0 (at_next ks before i old rest at all),
                rw ((diff_entry-idx i old j d m e).1, jd) (at_index k 0 [] desired j d refl n),
              );
            })
      ]

  diff_old-Classed :
      (before : List String) (i : ℕ) (olds desired : List LbCluster) (acc acc' : Changes)
      → i ≡ length before
      → ks ≡ before ++ ids olds
      → js ≡ ids desired
      → Classed before acc
      → diff_old eq i olds desired acc ≡ some acc'
      → Classed (before ++ ids olds) acc'
  unfolding diff_old
  diff_old-Classed before i [] desired acc acc' at all jd c h =
      let same : acc ≡ acc' = ground arith in rw (append-nil before) (subst (Classed before) same c)
  diff_old-Classed before i (old ∷ olds) desired acc acc' at all jd c h =
      elim (Option-cases (diff_lb eq i old (index_loadbalancer_by_id (lb_id old) 0 desired) acc)) [
        | inl n ↦ absurd (ground arith)
        | inr (mid, n) ↦
            subst (λ l. Classed l acc') (append_next before (lb_id old) (ids olds))
              (diff_old-Classed (before ++ lb_id old ∷ []) (i + 1) olds desired mid acc'
                (count_pass before i (lb_id old) at) (pass ks before old olds all) jd
                (diff_lb-Classed before i old olds desired _ acc mid at all jd refl c n)
                (ground arith))
      ]

start : (eq : ProtoEqual) (ks js : List String) → Classed eq ks js [] ([], [])
unfolding lookup delete_func
start eq ks js = record { gone = refl; at = tt; entries = λ k m e. absurd (cc e) }

-- The three classes of loadbalancers.
pub record IsClassified (old desired : List LbCluster) (r : LoadBalancersDiffResult) : Type 0 where
  pub added : names r.added ≡ delete_func (λ k. contains k (ids old)) (ids desired)
  pub deleted : names r.deleted ≡ delete_func (λ k. contains k (ids desired)) (ids old)
  pub added_at : All (IsAt (ids desired)) r.added
  pub deleted_at : All (IsAt (ids old)) r.deleted
  pub modified_at :
      (k : String) (m : ModifiedLoadBalancer)
      → lookup k r.modified ≡ some m
      → Indexed (ids old) (ids desired) k m

-- The added loadbalancers are those of the desired state whose ids the old one lacks, in order, and
-- the deleted ones those of the old state whose ids the desired one lacks; each index that the result
-- holds, also those of the modified ones in both states, is that of a loadbalancer of its id.
pub load_balancers_diff-IsClassified :
    (eq : ProtoEqual) (old desired : List LbCluster) (r : LoadBalancersDiffResult)
    → load_balancers_diff eq old desired ≡ some r
    → IsClassified old desired r
unfolding load_balancers_diff
load_balancers_diff-IsClassified eq old desired r h =
    elim (Option-cases (diff_old eq 0 old desired ([], []))) [
      | inl n ↦ absurd (ground arith)
      | inr (changes, n) ↦
          let c =
            diff_old-Classed eq (ids old) (ids desired) [] 0 old desired ([], []) changes refl refl
              refl (start eq (ids old) (ids desired)) n in
          let same : record {
            added = added_from 0 desired old [];
            deleted = changes.0;
            modified = changes.1;
            api_endpoint = determine_lb_api_endpoint_change old desired;
          }
              ≡ r =
            ground arith in
          subst (IsClassified old desired) same (record {
            added = names-added_from 0 desired old [];
            deleted = c.gone;
            added_at = added_from-IsAt (ids desired) [] 0 desired old [] refl refl tt;
            deleted_at = c.at;
            modified_at = c.entries;
          })
    ]
