-- ===== src/Manifest.antt =====
-- internal/api/manifest/state.go: the states of a manifest and the transitions between them.
use claudie.Prelude.{Bool, true, false, List, [], ◌∷◌, Option, none, some, ◌||◌, String}

pub data State : Type 0 where
  pending scheduled done error : State

-- A state as the database holds it: a string, which need not name a state.
pub data StateName : Type 0 where
  known : State → StateName
  unrecognized : String → StateName

abbrev pub state_eq : State → State → Bool
state_eq pending pending = true
state_eq scheduled scheduled = true
state_eq done done = true
state_eq error error = true
state_eq _ _ = false

-- `StateTransitionMap`
abbrev pub state_transition_map : State → List State
state_transition_map pending = pending ∷ scheduled ∷ []
state_transition_map scheduled = scheduled ∷ done ∷ error ∷ []
state_transition_map done = done ∷ pending ∷ []
state_transition_map error = error ∷ pending ∷ []

-- `slices.Contains` on states.
abbrev pub contains_state : List State → State → Bool
contains_state [] s = false
contains_state (x ∷ xs) s = state_eq x s || contains_state xs s

-- `ValidStateTransition`
unfoldable pub valid_state_transition : State → State → Bool
valid_state_transition src dst = contains_state (state_transition_map src) dst

-- `ValidStateTransitionString`; `none` is the error "unrecognized state".
unfoldable pub valid_state_transition_string : StateName → State → Option Bool
unfolding valid_state_transition
valid_state_transition_string (known src) dst = some (valid_state_transition src dst)
valid_state_transition_string (unrecognized _) dst = none
