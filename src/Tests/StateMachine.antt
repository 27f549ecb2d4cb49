-- ===== src/Tests/StateMachine.antt =====
-- The lifecycle at some of its states.
use xmiete.Prelude.{◌≤◌, ◌≡◌, ◌↔◌, true, refl}
use xmiete.Models.{requested, identified, pledged, closed, released}
use xmiete.StateMachine.{can_transition}
use xmiete.StateMachine.Graph.{
  Documented, Chain, here, then_step, can_transition_iff, Chain-bounded,
}

can_transition_iff_example : (can_transition pledged released ≡ true) ↔ Documented pledged released
can_transition_iff_example = can_transition_iff pledged released refl refl

whole_life : Chain requested closed 4
unfolding can_transition
whole_life =
    then_step {t = identified} refl
      (then_step {t = pledged} refl (then_step {t = released} refl (then_step refl here)))

Chain-bounded_example : 4 ≤ 7
Chain-bounded_example = Chain-bounded whole_life
