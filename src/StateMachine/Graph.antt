-- ===== src/StateMachine/Graph.antt =====
-- The transitions of the lifecycle as relations: the diagram of LIFECYCLE.md, and what the state
-- machine (server/internal/statemachine/transitions.go) has beside it.
use xmiete.Prelude.{
  ℕ, suc, ◌+◌, ◌≤◌, ◌<◌, ◌≡◌, ◌↔◌, refl, Bool, true, false, none, some, arith, Bool-cases, inl, inr,
  ◌⊎◌,
}
use xmiete.Models.{
  LifecycleState, requested, identified, funded, pledged, released, claimed, settle_proposed,
  disputed, partially_released, closed, other,
}
use xmiete.StateMachine.{can_transition, transition}

-- An arrow of the diagram in LIFECYCLE.md.
pub data Documented : LifecycleState → LifecycleState → Type 0 where
  identify : Documented requested identified
  fund : Documented identified funded
  pledge_unfunded : Documented identified pledged
  pledge_funded : Documented funded pledged
  release : Documented pledged released
  claim : Documented pledged claimed
  release_claimed : Documented claimed released
  close_released : Documented released closed

-- LIFECYCLE.md knows the state.
abbrev pub is_documented : LifecycleState → Bool
is_documented settle_proposed = false
is_documented disputed = false
is_documented partially_released = false
is_documented (other _) = false
is_documented _ = true

-- The transitions of the server: those of LIFECYCLE.md, and those from and to the states of a
-- negotiation and of a partial release, which LIFECYCLE.md does not know.
infix 40 ◌⟶◌
pub data ◌⟶◌ : LifecycleState → LifecycleState → Type 0 where
  documented : {s t : LifecycleState} → Documented s t → s ⟶ t
  settle_funded : funded ⟶ settle_proposed
  settle : pledged ⟶ settle_proposed
  release_part : pledged ⟶ partially_released
  settle_rest : partially_released ⟶ settle_proposed
  close_rest : partially_released ⟶ closed
  accept : settle_proposed ⟶ closed
  dispute : settle_proposed ⟶ disputed
  resolve : disputed ⟶ closed

ruleset arrows = (
  identify, fund, pledge_unfunded, pledge_funded, release, claim, release_claimed, close_released,
)

ruleset edges = (
  arrows, documented, settle_funded, settle, release_part, settle_rest, close_rest, accept, dispute,
  resolve,
)

Documented-can_transition : {s t : LifecycleState} → Documented s t → can_transition s t ≡ true
unfolding can_transition
Documented-can_transition identify = refl
Documented-can_transition e = refl

⟶-can_transition : {s t : LifecycleState} → s ⟶ t → can_transition s t ≡ true
unfolding can_transition
⟶-can_transition (documented e) = Documented-can_transition e
⟶-can_transition e = refl

can_transition-⟶ : (s t : LifecycleState) → can_transition s t ≡ true → s ⟶ t
unfolding can_transition
can_transition-⟶ s t h = grind (arith, edges)

can_transition-Documented :
    (s t : LifecycleState)
    → is_documented s ≡ true
    → is_documented t ≡ true
    → can_transition s t ≡ true
    → Documented s t
unfolding can_transition
can_transition-Documented s t known_s known_t h = grind (arith, arrows)

-- Between two states of LIFECYCLE.md, the code's test passes exactly where the diagram of
-- LIFECYCLE.md has an arrow.
pub can_transition_iff :
    (s t : LifecycleState)
    → is_documented s ≡ true
    → is_documented t ≡ true
    → (can_transition s t ≡ true) ↔ Documented s t
can_transition_iff s t known_s known_t =
    (can_transition-Documented s t known_s known_t, Documented-can_transition)

-- Transitions that the code's test lets follow one another, with their number.
pub data Chain : LifecycleState → LifecycleState → ℕ → Type 0 where
  here : {s : LifecycleState} → Chain s s 0
  then_step :
      {s t u : LifecycleState} {n : ℕ} → can_transition s t ≡ true → Chain t u n → Chain s u (suc n)

-- How far a state lies along the lifecycle.
unfoldable pub rank : LifecycleState → ℕ
rank requested = 0
rank identified = 1
rank funded = 2
rank pledged = 3
rank claimed = 4
rank partially_released = 4
rank released = 5
rank settle_proposed = 5
rank disputed = 6
rank closed = 7
rank (other _) = 7

rank-le : (s : LifecycleState) → rank s ≤ 7
unfolding rank
rank-le requested = omega arith
rank-le s = omega arith

rank-Documented : {s t : LifecycleState} → Documented s t → rank s < rank t
unfolding rank
rank-Documented identify = omega arith
rank-Documented e = omega arith

pub rank-⟶ : {s t : LifecycleState} → s ⟶ t → rank s < rank t
unfolding rank
rank-⟶ (documented e) = rank-Documented e
rank-⟶ e = omega arith

rank-Chain : {s t : LifecycleState} {n : ℕ} → Chain s t n → n + rank s ≤ rank t
rank-Chain here = omega arith
rank-Chain (then_step {s} {t} e c) = omega (arith, rank-⟶ (can_transition-⟶ s t e), rank-Chain c)

-- The server's transitions have no cycle: no chain of transitions that the code's test lets follow
-- one another, from whichever state, is longer than seven.
pub Chain-bounded : {s t : LifecycleState} {n : ℕ} → Chain s t n → n ≤ 7
Chain-bounded {t = t} c = omega (arith, rank-Chain c, rank-le t)

-- The state is a constant of the source, not some other text.
abbrev pub is_known : LifecycleState → Bool
is_known (other _) = false
is_known _ = true

from_released : Chain released closed 1
from_released = then_step (⟶-can_transition (documented close_released)) here

from_pledged : Chain pledged closed 2
from_pledged = then_step (⟶-can_transition (documented release)) from_released

from_identified : Chain identified closed 3
from_identified = then_step (⟶-can_transition (documented pledge_unfunded)) from_pledged

closing : (s : LifecycleState) → is_known s ≡ true → (n : ℕ) × Chain s closed n
closing requested h = (4, then_step (⟶-can_transition (documented identify)) from_identified)
closing identified h = (3, from_identified)
closing funded h = (3, then_step (⟶-can_transition (documented pledge_funded)) from_pledged)
closing pledged h = (2, from_pledged)
closing claimed h = (2, then_step (⟶-can_transition (documented release_claimed)) from_released)
closing released h = (1, from_released)
closing partially_released h = (1, then_step (⟶-can_transition close_rest) here)
closing settle_proposed h = (1, then_step (⟶-can_transition accept) here)
closing disputed h = (1, then_step (⟶-can_transition resolve) here)
closing closed h = (0, here)
closing (other _) h = cc

-- CLOSED is the one end: from each state of the source, transitions that the code's test lets
-- follow one another lead to it, and the test lets none follow from it.
pub closed_final :
    ((s : LifecycleState) → is_known s ≡ true → (n : ℕ) × Chain s closed n)
    × ((t : LifecycleState) → can_transition closed t ≡ false)
unfolding can_transition
closed_final = (closing, λ t. refl)

-- `transition` gives the new state and no error where the server has the transition; elsewhere it gives
-- the current state, with an error that names both.
pub transition_cases :
    (s t : LifecycleState)
    → ((s ⟶ t) × (transition s t ≡ (t, none)))
      ⊎ ((¬ (s ⟶ t)) × (transition s t ≡ (s, some (record { from = s; to = t }))))
unfolding transition
transition_cases s t = elim (Bool-cases (can_transition s t)) [
  | inl allowed ↦ inl (can_transition-⟶ s t allowed, rw allowed)
  | inr refused ↦ inr ((λ e. cc (⟶-can_transition e)), rw refused)
]
