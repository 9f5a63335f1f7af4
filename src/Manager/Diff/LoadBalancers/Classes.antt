-- ===== src/Manager/Diff/LoadBalancers/Classes.antt =====
-- LoadBalancersDiff: which loadbalancers are added, deleted and modified.
use claudie.Prelude.{
  ℕ, ◌+◌, ◌≡◌, refl, true, false, List, [], ◌∷◌, ◌++◌, Option, none, some, String, All, map,
  contains, delete_func, get_elem?, str_eq, str_eq-eq, is_some, arith, ap, sym, subst, ◌∙◌,
  Bool-cases, Option-cases, inl, inr, append-nil, length, length-append,
}
use claudie.Spec.{LbCluster, lb_id}
use claudie.Manager.Diff.LoadBalancers.{
  LoadBalancerIdentifier, ModifiedLoadBalancer, index_loadbalancer_by_id, added_from,
}

abbrev pub ids : List LbCluster → List String
ids lbs = map lb_id lbs

abbrev pub names : List LoadBalancerIdentifier → List String
names as_ = map (λ a. a.id) as_

-- The index of an identifier is that of a loadbalancer of its id.
abbrev pub IsAt : List String → LoadBalancerIdentifier → Type 0
IsAt ks a = get_elem? ks a.index ≡ some a.id

pub is_some-index :
    (k : String) (i : ℕ) (lbs : List LbCluster)
    → is_some (index_loadbalancer_by_id k i lbs) ≡ contains k (ids lbs)
unfolding index_loadbalancer_by_id contains
is_some-index k i [] = refl
is_some-index k i (lb ∷ lbs) = ground (arith, is_some-index k (i + 1) lbs)

pub names_snoc :
    (acc : List LoadBalancerIdentifier) (a : LoadBalancerIdentifier) (ks : List String)
    → names (acc ++ a ∷ []) ++ ks ≡ names acc ++ a.id ∷ ks
names_snoc [] a ks = refl
names_snoc (b ∷ acc) a ks = ap (λ l. b.id ∷ l) (names_snoc acc a ks)

-- The ids that the others lack, behind those found before.
pub names-added_from :
    (i : ℕ) (ns old : List LbCluster) (acc : List LoadBalancerIdentifier)
    → names (added_from i ns old acc)
      ≡ names acc ++ delete_func (λ k. contains k (ids old)) (ids ns)
unfolding added_from delete_func
names-added_from i [] old acc = sym (append-nil (names acc))
names-added_from i (n ∷ ns) old acc =
    elim (Option-cases (index_loadbalancer_by_id (lb_id n) 0 old)) [
      | inl no_index ↦
          let absent : contains (lb_id n) (ids old) ≡ false =
            ground (arith, is_some-index (lb_id n) 0 old) in
          let here : LoadBalancerIdentifier = record { id = lb_id n; index = i } in
          rw (no_index, absent)
            (names-added_from (i + 1) ns old (acc ++ here ∷ [])
              ∙ names_snoc acc here (delete_func (λ k. contains k (ids old)) (ids ns)))
      | inr (at, found) ↦
          let present : contains (lb_id n) (ids old) ≡ true =
            ground (arith, is_some-index (lb_id n) 0 old) in
          ground (arith, found, present, names-added_from (i + 1) ns old acc)
    ]

get_elem?-append :
    (ks : List String) (k : String) (rest : List String)
    → get_elem? (ks ++ k ∷ rest) (length ks) ≡ some k
get_elem?-append [] k rest = refl
get_elem?-append (j ∷ ks) k rest = get_elem?-append ks k rest

pub append_next :
    (ks : List String) (k : String) (rest : List String) → (ks ++ k ∷ []) ++ rest ≡ ks ++ k ∷ rest
append_next [] k rest = refl
append_next (j ∷ ks) k rest = ap (λ l. j ∷ l) (append_next ks k rest)

pub All-snoc :
    {A : Type 0} (P : A → Type 0) (xs : List A) (x : A) → All P xs → P x → All P (xs ++ x ∷ [])
All-snoc P [] x h p = (p, tt)
All-snoc P (y ∷ xs) x (h, hs) p = (h, All-snoc P xs x hs p)

-- The id at the index after those before it.
pub at_next :
    (ks before : List String) (i : ℕ) (lb : LbCluster) (rest : List LbCluster)
    → i ≡ length before
    → ks ≡ before ++ ids (lb ∷ rest)
    → get_elem? ks i ≡ some (lb_id lb)
at_next ks before i lb rest at all = rw (at, all) (get_elem?-append before (lb_id lb) (ids rest))

pub pass :
    (ks before : List String) (lb : LbCluster) (rest : List LbCluster)
    → ks ≡ before ++ ids (lb ∷ rest)
    → ks ≡ (before ++ lb_id lb ∷ []) ++ ids rest
pass ks before lb rest all = all ∙ sym (append_next before (lb_id lb) (ids rest))

pub count_pass :
    (before : List String) (i : ℕ) (k : String)
    → i ≡ length before
    → i + 1 ≡ length (before ++ k ∷ [])
count_pass before i k at = omega (arith, at, length-append before (k ∷ []))

-- The loop at the index `i` has passed the ids `before`.
pub added_from-IsAt :
    (ks before : List String) (i : ℕ) (ns old : List LbCluster) (acc : List LoadBalancerIdentifier)
    → i ≡ length before
    → ks ≡ before ++ ids ns
    → All (IsAt ks) acc
    → All (IsAt ks) (added_from i ns old acc)
unfolding added_from
added_from-IsAt ks before i [] old acc at all h = h
added_from-IsAt ks before i (n ∷ ns) old acc at all h =
    added_from-IsAt ks (before ++ lb_id n ∷ []) (i + 1) ns old _ (count_pass before i (lb_id n) at)
      (pass ks before n ns all) (by_index (index_loadbalancer_by_id (lb_id n) 0 old))
  where
    by_index :
        (o : Option (ℕ × LbCluster))
        → All
            (IsAt ks)
            (elim o [ none ↦ acc ++ record { id = lb_id n; index = i } ∷ [] | some _ ↦ acc ])
    by_index none = All-snoc (IsAt ks) acc _ h (at_next ks before i n ns at all)
    by_index (some _) = h

-- An entry's indexes are those of loadbalancers of its id, in both states.
abbrev pub Indexed : List String → List String → String → ModifiedLoadBalancer → Type 0
Indexed ks js k m = (get_elem? ks m.current_idx ≡ some k) × (get_elem? js m.desired_idx ≡ some k)

pub at_index :
    (k : String) (i : ℕ) (before : List String) (lbs : List LbCluster) (j : ℕ) (lb : LbCluster)
    → i ≡ length before
    → index_loadbalancer_by_id k i lbs ≡ some (j, lb)
    → get_elem? (before ++ ids lbs) j ≡ some k
unfolding index_loadbalancer_by_id
at_index k i before [] j lb at h = absurd (cc h)
at_index k i before (x ∷ lbs) j lb at h = elim (Bool-cases (str_eq (lb_id x) k)) [
  | inl e ↦
      let same = str_eq-eq (lb_id x) k e in
      let is_i : i ≡ j = ground arith in
      subst (λ n. get_elem? (before ++ ids (x ∷ lbs)) n ≡ some k) is_i
        (rw (at, same) (get_elem?-append before k (ids lbs)))
  | inr e ↦
      subst (λ l. get_elem? l j ≡ some k) (append_next before (lb_id x) (ids lbs))
        (at_index k (i + 1) (before ++ lb_id x ∷ []) lbs j lb (count_pass before i (lb_id x) at)
          (ground arith))
]
