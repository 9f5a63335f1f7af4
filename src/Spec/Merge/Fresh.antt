-- ===== src/Spec/Merge/Fresh.antt =====
-- ConsumeUpdateResult and Commit: the received loadbalancers that are new to a task.
use claudie.Prelude.{
  ◌≡◌, refl, false, List, [], ◌∷◌, none, some, String, map, str_eq, eq_iff, arith, contains,
  Distinct, delete_func, Bool-cases, Option-cases, inl, inr, ◌∙◌, sym, ap,
}
use claudie.Spec.{LbCluster, lb_id}
use claudie.Spec.Merge.{take_by_id, update_existing}

-- The received ones of another id.
abbrev others_than : String → List LbCluster → List LbCluster
others_than target = delete_func (λ u. str_eq (lb_id u) target)

-- The received ones whose id no present one has.
abbrev pub fresh_of : List LbCluster → List LbCluster → List LbCluster
fresh_of ls = delete_func (λ u. contains (lb_id u) (map lb_id ls))

abbrev pub IdsDistinct : List LbCluster → Type 0
IdsDistinct us = Distinct (map lb_id us)

others_than-all :
    (target : String) (us : List LbCluster)
    → contains target (map lb_id us) ≡ false
    → others_than target us ≡ us
unfolding contains delete_func
others_than-all target [] h = refl
others_than-all target (u ∷ us) h = ground (arith, others_than-all target us)

others_than-none :
    (target : String) (us : List LbCluster)
    → take_by_id target us ≡ none
    → others_than target us ≡ us
unfolding take_by_id delete_func
others_than-none target [] e = refl
others_than-none target (u ∷ us) e = elim (Option-cases (take_by_id target us)) [
  | inl n ↦ ground (arith, others_than-none target us n)
  | inr ((v, vs), n) ↦ absurd (ground arith)
]

others_than-some :
    (target : String) (us : List LbCluster) (u : LbCluster) (vs : List LbCluster)
    → IdsDistinct us
    → take_by_id target us ≡ some (u, vs)
    → others_than target us ≡ vs
unfolding take_by_id delete_func
others_than-some target [] u vs d e = absurd (cc e)
others_than-some target (x ∷ us) u vs d e = elim (Bool-cases (str_eq (lb_id x) target)) [
  | inl same ↦ ground (arith, others_than-all target us, eq_iff (lb_id x) target, d.0)
  | inr differs ↦ elim (Option-cases (take_by_id target us)) [
    | inl n ↦ absurd (ground arith)
    | inr ((v, ws), n) ↦ ground (arith, others_than-some target us v ws d.1 n)
  ]
]

contains-others_than :
    (s target : String) (us : List LbCluster)
    → contains s (map lb_id us) ≡ false
    → contains s (map lb_id (others_than target us)) ≡ false
unfolding contains delete_func
contains-others_than s target [] h = h
contains-others_than s target (u ∷ us) h = ground (arith, contains-others_than s target us)

others_than-IdsDistinct :
    (target : String) (us : List LbCluster) → IdsDistinct us → IdsDistinct (others_than target us)
unfolding delete_func
others_than-IdsDistinct target [] d = tt
others_than-IdsDistinct target (u ∷ us) d = elim (Bool-cases (str_eq (lb_id u) target)) [
  | inl same ↦ rw same (others_than-IdsDistinct target us d.1)
  | inr differs ↦
      rw differs
        (contains-others_than (lb_id u) target us d.0, others_than-IdsDistinct target us d.1)
]

fresh_of-others_than :
    (l : LbCluster) (ls us : List LbCluster)
    → fresh_of ls (others_than (lb_id l) us) ≡ fresh_of (l ∷ ls) us
unfolding contains delete_func
fresh_of-others_than l ls [] = refl
fresh_of-others_than l ls (u ∷ us) =
    ground
      (arith, fresh_of-others_than l ls us, eq_iff (lb_id u) (lb_id l), eq_iff (lb_id l) (lb_id u))

fresh_of-none : (us : List LbCluster) → fresh_of [] us ≡ us
unfolding contains delete_func
fresh_of-none [] = refl
fresh_of-none (u ∷ us) = ground (arith, fresh_of-none us)

-- The updates left over are those of new ids, in their order.
pub update_existing-fresh_of :
    (ls us : List LbCluster) → IdsDistinct us → (update_existing ls us).1 ≡ fresh_of ls us
unfolding update_existing
update_existing-fresh_of [] us d = sym (fresh_of-none us)
update_existing-fresh_of (l ∷ ls) us d = elim (Option-cases (take_by_id (lb_id l) us)) [
  | inl n ↦
      rw (n, update_existing)
        (update_existing-fresh_of ls us d
          ∙ ap (fresh_of ls) (sym (others_than-none (lb_id l) us n))
          ∙ fresh_of-others_than l ls us)
  | inr ((u, vs), n) ↦
      let left : others_than (lb_id l) us ≡ vs = others_than-some (lb_id l) us u vs d n in
      rw (n, update_existing)
        (rw (← left) (
          update_existing-fresh_of ls (others_than (lb_id l) us)
            (others_than-IdsDistinct (lb_id l) us d)
          ∙ fresh_of-others_than l ls us))
]
