-- ===== src/Spec/Cleared.antt =====
-- ConsumeClearResult: which loadbalancers stay, and when the kubernetes cluster may be cleared.
use claudie.Prelude.{
  ◌≡◌, refl, ◌↔◌, true, false, List, [], ◌∷◌, none, some, String, arith, All, contains, delete_func,
  if◌then◌else◌, eq_iff, Bool-cases, inl, inr,
}
use claudie.Spec.{LbCluster, find_by_id, lb_id}
use claudie.Spec.Task.{Task, TaskState, ClearState}
use claudie.Spec.Clear.{
  ok, refused, load_balancers_exist, state_of, with_state, clears_k8s, is_cleared, is_empty,
  clear_state, consume_clear_result,
}

-- A search among the loadbalancers that stay finds nothing that is listed, and all else as before.
find_by_id-delete_func :
    (c : ClearState) (target : String) (lbs : List LbCluster)
    → find_by_id target (delete_func (is_cleared c) lbs)
      ≡ (if contains target c.load_balancers_ids then none else find_by_id target lbs)
unfolding find_by_id delete_func
find_by_id-delete_func c target [] = ground arith
find_by_id-delete_func c target (lb ∷ lbs) =
    ground (arith, eq_iff (lb_id lb) target, find_by_id-delete_func c target lbs)

delete_func_empty :
    (c : ClearState) (lbs : List LbCluster)
    → All (λ lb. is_cleared c lb ≡ true) lbs
    → delete_func (is_cleared c) lbs ≡ []
unfolding delete_func
delete_func_empty c [] h = refl
delete_func_empty c (lb ∷ lbs) h = ground (arith, h.0, delete_func_empty c lbs h.1)

All-of_empty :
    (c : ClearState) (lbs : List LbCluster)
    → is_empty (delete_func (is_cleared c) lbs) ≡ true
    → All (λ lb. is_cleared c lb ≡ true) lbs
unfolding delete_func
All-of_empty c [] h = tt
All-of_empty c (lb ∷ lbs) h = elim (Bool-cases (is_cleared c lb)) [
  | inl e ↦ (e, All-of_empty c lbs (ground arith))
  | inr e ↦ absurd (ground arith)
]

-- A clear result that does not clear the kubernetes cluster is always consumed: the kubernetes
-- cluster stays, and a search by id finds no listed loadbalancer and any other as before.
pub find_by_id-consume_clear_result :
    (c : ClearState) (t : Task) (s : TaskState)
    → state_of t ≡ some s
    → clears_k8s c ≡ false
    → (s' : TaskState) × (consume_clear_result c t ≡ ok (with_state s' t))
      × (s'.k8s ≡ s.k8s)
      × ((target : String)
          → find_by_id target s'.load_balancers ≡ (
              if contains target c.load_balancers_ids
              then none
              else find_by_id target s.load_balancers))
unfolding consume_clear_result clear_state
find_by_id-consume_clear_result c t s e h = (
  record s { load_balancers = delete_func (is_cleared c) s.load_balancers },
  ground arith,
  refl,
  λ target. find_by_id-delete_func c target s.load_balancers,
)

abbrev pub empty_state : TaskState
empty_state = record { k8s = none; load_balancers = [] }

-- A clear result that clears the kubernetes cluster is consumed, and then leaves nothing, exactly
-- when it lists every loadbalancer of the task; otherwise it is refused and the kubernetes
-- cluster stays in the task.
pub consume_clear_result_k8s :
    (c : ClearState) (t : Task) (s : TaskState)
    → state_of t ≡ some s
    → clears_k8s c ≡ true
    → ((consume_clear_result c t ≡ ok (with_state empty_state t))
        ↔ All (λ lb. is_cleared c lb ≡ true) s.load_balancers)
      × (¬ All (λ lb. is_cleared c lb ≡ true) s.load_balancers
          → (s' : TaskState) × (consume_clear_result c t
              ≡ refused load_balancers_exist (with_state s' t))
            × (s'.k8s ≡ s.k8s))
unfolding consume_clear_result clear_state
consume_clear_result_k8s c t s e h =
    elim (Bool-cases (is_empty (delete_func (is_cleared c) s.load_balancers))) [
      | inl none_left ↦
          let all = All-of_empty c s.load_balancers none_left in
          ((λ _. all, λ _. ground arith), λ bad. absurd (bad all))
      | inr some_left ↦
          let kept : TaskState = record s {
            load_balancers = delete_func (is_cleared c) s.load_balancers;
          } in
          (
            (
              λ done. absurd (ground arith),
              λ all. absurd (ground (arith, delete_func_empty c s.load_balancers all)),
            ),
            λ _. (kept, ground arith, refl),
          )
    ]
