-- ===== src/Manager/Diff/Endpoint/Choice.antt =====
-- determineLBApiEndpointChange: what its answers mean.
use claudie.Prelude.{
  ◌≡◌, refl, Bool, true, false, List, [], ◌∷◌, Option, none, some, String, keep_func, is_some,
  str_eq, str_eq-eq, arith, ap, sym, subst, ◌∙◌, Bool-cases, inl, inr, eq_iff,
}
use claudie.Spec.{LbCluster, Dns, lb_id}
use claudie.Prelude.{Dict, lookup, insert, lookup-insert, contains_func, ◌&&◌, ◌||◌}
use claudie.Manager.Diff.Endpoint.{
  no_change, attaching, detaching, endpoint_renamed, move_endpoint, Answer,
  find_assigned_lb_api_endpoint, is_candidate, candidates, by_id, renamed, change_from,
  change_to_none, change_assigned, change_unassigned, change_for, determine_lb_api_endpoint_change,
}

-- A loadbalancer of this id may serve the api endpoint.
unfoldable pub has_candidate : String → List LbCluster → Bool
unfolding contains_func is_candidate
has_candidate k lbs = contains_func (λ lb. is_candidate lb && str_eq (lb_id lb) k) lbs

-- What an answer says, by the change that it asks for.
abbrev pub Means : List LbCluster → List LbCluster → Answer → Type 0
Means current desired (cid, nid, no_change) =
    (cid ≡ "") × (nid ≡ "") × (elim (find_assigned_lb_api_endpoint current) [
      | none ↦ contains_func is_candidate desired ≡ false
      | some lb ↦ elim lb.dns [
        | none ↦ contains_func is_candidate desired ≡ false
        | some _ ↦ has_candidate (lb_id lb) desired ≡ true
      ]
    ])
Means current desired (cid, nid, attaching) =
    (cid ≡ "")
    × (has_candidate nid desired ≡ true)
    × (elim (find_assigned_lb_api_endpoint current) [
      | none ↦ Unit
      | some lb ↦ (lb.dns ≡ none) × (has_candidate (lb_id lb) desired ≡ false)
    ])
Means current desired (cid, nid, detaching) =
    (lb : LbCluster) × (find_assigned_lb_api_endpoint current ≡ some lb)
    × (cid ≡ lb_id lb)
    × (is_some lb.dns ≡ true)
    × (nid ≡ "")
    × (contains_func is_candidate desired ≡ false)
Means current desired (cid, nid, endpoint_renamed) =
    (lb : LbCluster) × (find_assigned_lb_api_endpoint current ≡ some lb)
    × (cid ≡ lb_id lb)
    × (nid ≡ lb_id lb)
    × (has_candidate nid desired ≡ true)
Means current desired (cid, nid, move_endpoint) =
    (lb : LbCluster) × (find_assigned_lb_api_endpoint current ≡ some lb)
    × (cid ≡ lb_id lb)
    × (is_some lb.dns ≡ true)
    × (has_candidate nid desired ≡ true)
    × (has_candidate cid desired ≡ false)

lookup-by_id :
    (k : String) (lbs : List LbCluster) (acc : Dict LbCluster)
    → is_some (lookup k (by_id lbs acc))
      ≡ (contains_func (λ lb. str_eq (lb_id lb) k) lbs || is_some (lookup k acc))
unfolding by_id contains_func
lookup-by_id k [] acc = refl
lookup-by_id k (lb ∷ lbs) acc =
    ground (arith, lookup-by_id k lbs (insert (lb_id lb) lb acc), lookup-insert (lb_id lb) k lb acc)

id-by_id :
    (k : String) (lbs : List LbCluster) (acc : Dict LbCluster) (d : LbCluster)
    → ((x : LbCluster) → lookup k acc ≡ some x → lb_id x ≡ k)
    → lookup k (by_id lbs acc) ≡ some d
    → lb_id d ≡ k
unfolding by_id
id-by_id k [] acc d h e = h d e
id-by_id k (lb ∷ lbs) acc d h e =
    id-by_id k lbs (insert (lb_id lb) lb acc) d
      (λ x f. elim (Bool-cases (str_eq (lb_id lb) k)) [
        | inl same ↦
            let id_is = str_eq-eq (lb_id lb) k same in
            let is_lb : lb ≡ x = ground (arith, f, same, lookup-insert (lb_id lb) k lb acc) in
            ap lb_id (sym is_lb) ∙ id_is
        | inr other ↦ h x (ground (arith, f, other, lookup-insert (lb_id lb) k lb acc))
      ])
      e

has-candidates :
    (k : String) (lbs : List LbCluster)
    → contains_func (λ lb. str_eq (lb_id lb) k) (candidates lbs) ≡ has_candidate k lbs
unfolding candidates has_candidate contains_func keep_func
has-candidates k [] = refl
has-candidates k (lb ∷ lbs) = ground (arith, has-candidates k lbs)

none-candidates :
    (lbs : List LbCluster) → candidates lbs ≡ [] → contains_func is_candidate lbs ≡ false
unfolding candidates contains_func keep_func
none-candidates [] h = refl
none-candidates (lb ∷ lbs) h = ground (arith, none-candidates lbs)

desired_at :
    (k : String) (lbs : List LbCluster)
    → is_some (lookup k (by_id (candidates lbs) [])) ≡ has_candidate k lbs
unfolding lookup
desired_at k lbs = ground (arith, lookup-by_id k (candidates lbs) [], has-candidates k lbs)

first_at :
    (lbs rest : List LbCluster) (first : LbCluster)
    → candidates lbs ≡ first ∷ rest
    → has_candidate (lb_id first) lbs ≡ true
unfolding contains_func
first_at lbs rest first h =
    ground (arith, has-candidates (lb_id first) lbs, h, eq_iff (lb_id first) (lb_id first))

module _ (current desired : List LbCluster) where
  to_none-Means :
      (lb : LbCluster) (dns : Option Dns)
      → find_assigned_lb_api_endpoint current ≡ some lb
      → lb.dns ≡ dns
      → contains_func is_candidate desired ≡ false
      → Means current desired (change_to_none lb dns)
  to_none-Means lb none at d c = (refl, refl, rw (at, d) c)
  to_none-Means lb (some dns) at d c = (lb, at, refl, rw d refl, refl, c)

  renamed-Means :
      (lb : LbCluster) (dns : Dns) (o : Option Dns)
      → find_assigned_lb_api_endpoint current ≡ some lb
      → lb.dns ≡ some dns
      → has_candidate (lb_id lb) desired ≡ true
      → Means current desired (renamed lb dns o)
  renamed-Means lb dns none at d c = (refl, refl, rw (at, d) c)
  renamed-Means lb dns (some new) at d c = elim (Bool-cases (str_eq dns.endpoint new.endpoint)) [
    | inl e ↦ rw e (refl, refl, rw (at, d) c)
    | inr e ↦ rw e (lb, at, refl, refl, c)
  ]

  from-Means :
      (lb first : LbCluster) (dns : Option Dns) (o : Option LbCluster)
      → find_assigned_lb_api_endpoint current ≡ some lb
      → lb.dns ≡ dns
      → has_candidate (lb_id first) desired ≡ true
      → is_some o ≡ has_candidate (lb_id lb) desired
      → ((d : LbCluster) → o ≡ some d → lb_id d ≡ lb_id lb)
      → Means current desired (change_from lb dns first o)
  from-Means lb first none none at d c h i = (refl, c, rw at (d, sym h))
  from-Means lb first none (some x) at d c h i = (lb, at, refl, i x refl, rw (i x refl) (sym h))
  from-Means lb first (some dns) none at d c h i = (lb, at, refl, rw d refl, c, sym h)
  from-Means lb first (some dns) (some x) at d c h i = renamed-Means lb dns x.dns at d (sym h)

  assigned-Means :
      (lb : LbCluster) (cs : List LbCluster)
      → find_assigned_lb_api_endpoint current ≡ some lb
      → candidates desired ≡ cs
      → Means current desired (change_assigned lb cs)
  unfolding lookup
  assigned-Means lb [] at c = to_none-Means lb lb.dns at refl (none-candidates desired c)
  assigned-Means lb (first ∷ rest) at c =
      from-Means lb first lb.dns (lookup (lb_id lb) (by_id (first ∷ rest) [])) at refl
        (first_at desired rest first c)
        (subst (λ cs. is_some (lookup (lb_id lb) (by_id cs [])) ≡ has_candidate (lb_id lb) desired)
          c (desired_at (lb_id lb) desired))
        (λ d e. id-by_id (lb_id lb) (first ∷ rest) [] d (λ x f. absurd (cc f)) e)

  unassigned-Means :
      (cs : List LbCluster)
      → find_assigned_lb_api_endpoint current ≡ none
      → candidates desired ≡ cs
      → Means current desired (change_unassigned cs)
  unassigned-Means [] at c = (refl, refl, rw at (none-candidates desired c))
  unassigned-Means (first ∷ rest) at c = (refl, first_at desired rest first c, rw at tt)

  found-Means :
      (o : Option LbCluster)
      → find_assigned_lb_api_endpoint current ≡ o
      → Means current desired (change_for o (candidates desired))
  found-Means none at = unassigned-Means (candidates desired) at refl
  found-Means (some lb) at = assigned-Means lb (candidates desired) at refl

  -- What the answer says: nothing is to be done only if no loadbalancer is assigned the api
  -- endpoint and none of the desired ones may serve it, or the assigned one has no DNS and none may
  -- serve it, or the assigned one has a DNS and may serve it on; the endpoint is attached, renamed or
  -- moved to the id of a desired loadbalancer with the api role and a DNS; it is detached if there
  -- is none; and it is moved from the assigned loadbalancer only if that may not serve it on.
  pub determine-Means : Means current desired (determine_lb_api_endpoint_change current desired)
  unfolding determine_lb_api_endpoint_change
  determine-Means = found-Means (find_assigned_lb_api_endpoint current) refl
