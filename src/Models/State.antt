-- ===== src/Models/State.antt =====
-- The states of a deposit (`LifecycleState` of server/internal/models/deposit.go).
use xmiete.Prelude.{String, Bool, true, false, ◌≡◌, ◌==◌, ap, eq_iff, arith}

-- Go's type is a text: `other` is any text that is not one of the constants.
pub data LifecycleState : Type 0 where
  requested identified funded pledged released claimed : LifecycleState
  settle_proposed disputed partially_released closed : LifecycleState
  other : String → LifecycleState

-- The text of the constant.
unfoldable pub state_text : LifecycleState → String
state_text requested = "REQUESTED"
state_text identified = "IDENTIFIED"
state_text funded = "FUNDED"
state_text pledged = "PLEDGED"
state_text released = "RELEASED"
state_text claimed = "CLAIMED"
state_text settle_proposed = "SETTLE_PROPOSED"
state_text disputed = "DISPUTED"
state_text partially_released = "PARTIALLY_RELEASED"
state_text closed = "CLOSED"
state_text (other s) = s

-- Go's `==` on states.
unfoldable pub same_state : LifecycleState → LifecycleState → Bool
same_state requested requested = true
same_state identified identified = true
same_state funded funded = true
same_state pledged pledged = true
same_state released released = true
same_state claimed claimed = true
same_state settle_proposed settle_proposed = true
same_state disputed disputed = true
same_state partially_released partially_released = true
same_state closed closed = true
same_state (other s) (other t) = s == t
same_state _ _ = false

pub same_state-eq : (s t : LifecycleState) → same_state s t ≡ true → s ≡ t
unfolding same_state
same_state-eq (other s) (other t) h = ap other ((eq_iff s t).0 h)
same_state-eq s t h = ground arith
