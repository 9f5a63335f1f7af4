-- ===== src/Manager/Handlers/Range.antt =====
-- NodePoolUpdateTargetSize and MarkNodeForDeletion: the range of the autoscaler.
use claudie.Prelude.{
  ℕ, ◌≡◌, ◌<◌, ◌≤◌, ◌^◌, ◌+◌, ◌%◌, Bool, true, false, Option, none, some, All, arith, Bool-cases,
  inl, inr, i32_lt, i32_sub,
}
use claudie.Spec.{NodePool, PoolType, AutoscalerConf, K8sCluster, LbCluster, Clusters}
use claudie.Manager.Handlers.{
  Response, answer, refused, crashed, and_then, Sized, set_target, decrement,
}

-- The target size is between the minimum, which is not negative, and the maximum.
pub record InRange (a : AutoscalerConf) : Type 0 where
  pub natural : a.min < 2 ^ 31
  pub word : a.target_size < 2 ^ 32
  pub above : i32_lt a.target_size a.min ≡ false
  pub below : i32_lt a.max a.target_size ≡ false

abbrev pub RangedConf : Option AutoscalerConf → Type 0
RangedConf none = Unit
RangedConf (some a) = InRange a

abbrev pub RangedType : PoolType → Type 0
RangedType (PoolType.dynamic d) = RangedConf d.autoscaler_config
RangedType t = Unit

abbrev pub Ranged : NodePool → Type 0
Ranged np = RangedType np.type

abbrev pub RangedLb : LbCluster → Type 0
RangedLb lb = All Ranged lb.cluster_info.node_pools

abbrev pub RangedK8s : Option K8sCluster → Type 0
RangedK8s none = Unit
RangedK8s (some k) = All Ranged k.cluster_info.node_pools

-- Every autoscaled nodepool of the clusters is in its range.
abbrev pub RangedClusters : Clusters → Type 0
RangedClusters c = RangedK8s c.k8s × All RangedLb c.load_balancers

-- An answered value satisfies `P`.
abbrev pub Answers : {A : Type 0} → (A → Type 0) → Response (Sized A) → Type 0
Answers P (answer r) = P r.0
Answers P (refused _) = Unit
Answers P crashed = Unit

pub and_then-Answers :
    {A B : Type 0} (P : A → Type 0) (Q : B → Type 0) (r : Response (Sized A))
    (f : Sized A → Response (Sized B))
    → ((x : Sized A) → P x.0 → Answers Q (f x))
    → Answers P r
    → Answers Q (and_then r f)
unfolding and_then
and_then-Answers P Q (answer x) f h p = h x p
and_then-Answers P Q (refused _) f h p = tt
and_then-Answers P Q crashed f h p = tt

pub set_target-InRange :
    (a : AutoscalerConf) (size : ℕ)
    → size < 2 ^ 32
    → InRange a
    → Answers InRange (set_target a size)
unfolding set_target
set_target-InRange a size w r = elim (Bool-cases (i32_lt size a.min)) [
  | inl low ↦ rw low tt
  | inr fine ↦ elim (Bool-cases (i32_lt a.max size)) [
    | inl high ↦ rw (fine, high) tt
    | inr good ↦
        rw (fine, good) (record { natural = r.natural; word = w; above = fine; below = good })
  ]
]

lt_le : (a b : ℕ) → i32_lt a b ≡ false → (b + 2 ^ 31) % 2 ^ 32 ≤ (a + 2 ^ 31) % 2 ^ 32
lt_le a b h = ground arith

le_lt : (a b : ℕ) → (b + 2 ^ 31) % 2 ^ 32 ≤ (a + 2 ^ 31) % 2 ^ 32 → i32_lt a b ≡ false
le_lt a b h = ground arith

-- One less than a natural number within the range does not wrap around.
lower :
    (t min max : ℕ)
    → min < 2 ^ 31
    → t < 2 ^ 32
    → i32_lt t min ≡ false
    → i32_lt max t ≡ false
    → i32_lt (i32_sub t 1) min ≡ false
    → i32_lt max (i32_sub t 1) ≡ false
lower t min max n w above below fine =
    let a = lt_le t min above in
    let b = lt_le max t below in
    let c = lt_le (i32_sub t 1) min fine in le_lt max (i32_sub t 1) (omega arith)

pub decrement-InRange :
    (a : AutoscalerConf) (should : Bool) → InRange a → Answers InRange (decrement a should)
unfolding decrement
decrement-InRange a false r = r
decrement-InRange a true r = elim (Bool-cases (i32_lt (i32_sub a.target_size 1) a.min)) [
  | inl low ↦ rw low tt
  | inr fine ↦ rw fine (record {
    natural = r.natural;
    word = omega arith;
    above = fine;
    below = lower a.target_size a.min a.max r.natural r.word r.above r.below fine;
  })
]
