-- ===== src/Spec/Merge.antt =====
-- proto/pb/spec/utils_consume.go: how received loadbalancers are put over the present ones, by
-- ConsumeUpdateResult and by Commit.
pub mod Fresh
use claudie.Prelude.{
  ◌≡◌, refl, ap, List, [], ◌∷◌, ◌++◌, Option, none, some, String, map, str_eq, eq_iff,
  if◌then◌else◌, arith, ap₂, Option-cases, inl, inr, Bool-cases, str_eq-eq, false,
}
use claudie.Spec.{LbCluster, lb_id, find_by_id}

-- The first cluster with the id, and the others: `slices.Delete(clusters, j, j+1)`.
unfoldable pub take_by_id : String → List LbCluster → Option (LbCluster × List LbCluster)
take_by_id target [] = none
take_by_id target (u ∷ us) =
    let rest = take_by_id target us in
    if str_eq (lb_id u) target
    then some (u, us)
    else elim rest [ none ↦ none | some (v, vs) ↦ some (v, u ∷ vs) ]

-- The loop "update existing ones": the clusters in their places, and the updates left over.
unfoldable pub update_existing : List LbCluster → List LbCluster → List LbCluster × List LbCluster
update_existing [] us = ([], us)
update_existing (l ∷ ls) us = elim (take_by_id (lb_id l) us) [
  | none ↦ let r = update_existing ls us in (l ∷ r.0, r.1)
  | some (u, vs) ↦ let r = update_existing ls vs in (u ∷ r.0, r.1)
]

-- "add new ones"
unfoldable pub merge : List LbCluster → List LbCluster → List LbCluster
unfolding update_existing
merge ls us = let r = update_existing ls us in r.0 ++ r.1

abbrev pub or_else {ℓ} : {A : Type ℓ} → Option A → Option A → Option A
or_else none o = o
or_else (some a) o = some a

-- What `take_by_id` tells of a search for any id.
abbrev Takes : String → List LbCluster → Option (LbCluster × List LbCluster) → Type 0
Takes target us none = find_by_id target us ≡ none
Takes target us (some (u, vs)) =
    (lb_id u ≡ target)
    × (find_by_id target us ≡ some u)
    × ((other : String) → str_eq target other ≡ false → find_by_id other vs ≡ find_by_id other us)

take_by_id-Takes : (target : String) (us : List LbCluster) → Takes target us (take_by_id target us)
unfolding take_by_id find_by_id
take_by_id-Takes target [] = refl
take_by_id-Takes target (u ∷ us) = elim (Bool-cases (str_eq (lb_id u) target)) [
  | inl e ↦
      rw (e, take_by_id, find_by_id)
        (
          str_eq-eq _ _ e,
          ground arith,
          λ other ne.
              ground (arith, eq_iff (lb_id u) target, eq_iff (lb_id u) other, eq_iff target other),
        )
  | inr e ↦ elim (Option-cases (take_by_id target us)) [
    | inl n ↦
        let absent : find_by_id target us ≡ none = rw n at (take_by_id-Takes target us) in
        rw (n, e, take_by_id) (ground arith)
    | inr ((v, vs), n) ↦
        let t : Takes target us (some (v, vs)) = rw n at (take_by_id-Takes target us) in
        rw (n, e, take_by_id, find_by_id) (t.0, ground arith, λ other ne. ground (arith, t.2 other))
  ]
]

taken_none :
    (target : String) (us : List LbCluster)
    → take_by_id target us ≡ none
    → find_by_id target us ≡ none
taken_none target us e = rw e at (take_by_id-Takes target us)

taken_some :
    (target : String) (us : List LbCluster) (u : LbCluster) (vs : List LbCluster)
    → take_by_id target us ≡ some (u, vs)
    → Takes target us (some (u, vs))
taken_some target us u vs e = rw e at (take_by_id-Takes target us)

-- The places and the ids of the present clusters stay.
pub ids-update_existing :
    (ls us : List LbCluster) → map lb_id (update_existing ls us).0 ≡ map lb_id ls
unfolding update_existing
ids-update_existing [] us = refl
ids-update_existing (l ∷ ls) us = elim (Option-cases (take_by_id (lb_id l) us)) [
  | inl e ↦ rw (e, update_existing) (ap (◌∷◌ (lb_id l)) (ids-update_existing ls us))
  | inr ((u, vs), e) ↦
      rw (e, update_existing) (ap₂ ◌∷◌ (taken_some _ us u vs e).0 (ids-update_existing ls vs))
]

-- A search in the merged clusters: a received cluster hides the present one of its id.
pub find_by_id-merge :
    (target : String) (ls us : List LbCluster)
    → find_by_id target (merge ls us) ≡ or_else (find_by_id target us) (find_by_id target ls)
unfolding merge update_existing find_by_id
find_by_id-merge target [] us = ground arith
find_by_id-merge target (l ∷ ls) us = elim (Option-cases (take_by_id (lb_id l) us)) [
  | inl e ↦
      rw (e, merge, update_existing)
        (ground (
          arith,
          eq_iff (lb_id l) target,
          taken_none (lb_id l) us e,
          find_by_id-merge target ls us,
        ))
  | inr ((u, vs), e) ↦
      let (same, found, others) = taken_some _ us u vs e in
      rw (e, merge, update_existing)
        (ground (
          arith,
          eq_iff (lb_id u) target,
          eq_iff (lb_id l) target,
          same,
          found,
          others target,
          find_by_id-merge target ls vs,
        ))
]
