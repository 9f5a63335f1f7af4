-- ===== src/Manager/Diff/Endpoint.antt =====
-- services/manager/internal/service/diff.go: determineLBApiEndpointChange, and of
-- internal/clusters/clusters.go FindAssignedLbApiEndpoint.
pub mod Choice
use claudie.Prelude.{
  Bool, true, false, ◌&&◌, List, [], ◌∷◌, Option, none, some, String, find_func, keep_func, is_some,
  str_eq, Dict, insert, lookup, if◌then◌else◌,
}
use claudie.Spec.{LbCluster, Dns, lb_id, has_api_role, is_api_endpoint}

-- `spec.ApiEndpointChangeState`
pub data ApiEndpointChangeState : Type 0 where
  no_change attaching detaching endpoint_renamed move_endpoint : ApiEndpointChangeState

unfoldable pub find_assigned_lb_api_endpoint : List LbCluster → Option LbCluster
unfolding find_func is_api_endpoint
find_assigned_lb_api_endpoint lbs = find_func is_api_endpoint lbs

-- A loadbalancer that may serve the api endpoint.
unfoldable pub is_candidate : LbCluster → Bool
unfolding has_api_role
is_candidate lb = has_api_role lb && is_some lb.dns

-- The loadbalancers that get into the map `desired`, in order.
unfoldable pub candidates : List LbCluster → List LbCluster
unfolding keep_func is_candidate
candidates lbs = keep_func is_candidate lbs

-- The map `desired`: of two loadbalancers of one id, the later one.
unfoldable pub by_id : List LbCluster → Dict LbCluster → Dict LbCluster
by_id [] acc = acc
by_id (lb ∷ lbs) acc = by_id lbs (insert (lb_id lb) lb acc)

abbrev pub Answer : Type 0
Answer = String × String × ApiEndpointChangeState

-- `current.Dns.Endpoint != desired.Dns.Endpoint`, where both are set.
abbrev pub renamed : LbCluster → Dns → Option Dns → Answer
renamed current dns none = ("", "", no_change)
renamed current dns (some new) =
    if str_eq dns.endpoint new.endpoint
    then ("", "", no_change)
    else (lb_id current, lb_id current, endpoint_renamed)

-- An assigned loadbalancer, and the candidates `first ∷ rest`.
abbrev pub change_from : LbCluster → Option Dns → LbCluster → Option LbCluster → Answer
change_from current none first (some d) = (lb_id current, lb_id d, endpoint_renamed)
change_from current none first none = ("", lb_id first, attaching)
change_from current (some dns) first (some d) = renamed current dns d.dns
change_from current (some dns) first none = (lb_id current, lb_id first, move_endpoint)

-- An assigned loadbalancer, where there is no candidate.
abbrev pub change_to_none : LbCluster → Option Dns → Answer
change_to_none current none = ("", "", no_change)
change_to_none current (some _) = (lb_id current, "", detaching)

abbrev pub change_assigned : LbCluster → List LbCluster → Answer
change_assigned current [] = change_to_none current current.dns
change_assigned current (first ∷ rest) =
    change_from current current.dns first (lookup (lb_id current) (by_id (first ∷ rest) []))

abbrev pub change_unassigned : List LbCluster → Answer
change_unassigned [] = ("", "", no_change)
change_unassigned (first ∷ _) = ("", lb_id first, attaching)

-- By the loadbalancer that is assigned the api endpoint, if there is one.
abbrev pub change_for : Option LbCluster → List LbCluster → Answer
change_for none cs = change_unassigned cs
change_for (some lb) cs = change_assigned lb cs

-- `determineLBApiEndpointChange`
unfoldable pub determine_lb_api_endpoint_change : List LbCluster → List LbCluster → Answer
unfolding find_assigned_lb_api_endpoint candidates
determine_lb_api_endpoint_change current desired =
    change_for (find_assigned_lb_api_endpoint current) (candidates desired)
