-- ===== src/StateMachine.antt =====
-- The lifecycle of a deposit: server/internal/statemachine/transitions.go.
pub mod Graph
use Prim.Native.String.{◌++◌}
use xmiete.Prelude.{
  String, Bool, true, false, Option, none, some, List, [], ◌∷◌, any, ◌==◌, if◌then◌else◌,
}
use xmiete.Models.{
  LifecycleState, requested, identified, funded, pledged, released, claimed, settle_proposed,
  disputed, partially_released, closed, other, state_text, same_state, EidStatus, eid_verified,
}

-- The map from each state to the states that it may go to; `none` is a missing key.
unfoldable pub valid_transitions : LifecycleState → Option (List LifecycleState)
valid_transitions requested = some (identified ∷ [])
valid_transitions identified = some (funded ∷ pledged ∷ [])
valid_transitions funded = some (pledged ∷ settle_proposed ∷ [])
valid_transitions pledged = some (released ∷ claimed ∷ settle_proposed ∷ partially_released ∷ [])
valid_transitions claimed = some (released ∷ [])
valid_transitions released = some (closed ∷ [])
valid_transitions partially_released = some (settle_proposed ∷ closed ∷ [])
valid_transitions settle_proposed = some (closed ∷ disputed ∷ [])
valid_transitions disputed = some (closed ∷ [])
valid_transitions closed = some []
valid_transitions (other s) = none

pub record ErrInvalidTransition : Type 0 where
  pub from : LifecycleState
  pub to : LifecycleState

-- The method `Error`.
unfoldable pub error_text : ErrInvalidTransition → String
error_text e =
    "transition from " ++ (state_text e.from ++ (" to " ++ (state_text e.to ++ " is not allowed")))

unfoldable pub can_transition : LifecycleState → LifecycleState → Bool
unfolding valid_transitions same_state
can_transition from to = elim (valid_transitions from) [
  | none ↦ false
  | some targets ↦ any (λ t. same_state t to) targets
]

unfoldable pub transition :
    LifecycleState → LifecycleState → LifecycleState × Option ErrInvalidTransition
unfolding can_transition
transition current next =
    if can_transition current next
    then (next, none)
    else (current, some (record { from = current; to = next }))

unfoldable pub state_for_identity_update : EidStatus → LifecycleState × Bool
state_for_identity_update eid_status =
    if eid_status == eid_verified then (identified, true) else (other "", false)
