-- ===== src/Api/Lifecycle/Settlement.antt =====
-- The handlers of Api/Settlement.antt, by the rules of Legal.antt.
use mathlib.Core.Path.{subst}
use xmiete.Prelude.{
  ◌≡◌, refl, String, Bool, true, false, not, ◌||◌, ◌&&◌, Option, none, some, arith,
}
use xmiete.Calendar.{Time}
use xmiete.Amount.{Amount}
use xmiete.Models.{
  pledged, funded, settle_proposed, closed, same_state, same_state-eq, Settlement, Deposit,
  SettleRequest, SettleAcceptRequest, DisputeRequest, DisputeResolveRequest,
}
use xmiete.Api.Program.{Program}
use xmiete.Api.Settlement.{origin, agree, agreed, settle, settle_accept, dispute, dispute_resolve}
use xmiete.Api.Lifecycle.Trail.{along, counter, Needs, IsLawful}
use xmiete.Api.Lifecycle.Legal.{
  Known, Legal, Legal-reply, Legal-decode, Legal-require, Legal-deref, Legal-time_now,
  Legal-check_transition, Legal-advance, Legal-fire_webhook, Legal-reject_if, Legal-fetch,
  Legal-revoke, Legal-either,
}

-- A state that passes neither test of a first proposal, but is not refused, is SETTLE_PROPOSED.
counters : (a b : Bool) → (not a && not b) ≡ false → a ≡ false → b ≡ true
counters a b h e = ground arith

module _ {A : Type 0} where
  pub countered :
      (d : Deposit A)
      → (not (
            same_state d.deposit.lifecycle_state pledged
            || same_state d.deposit.lifecycle_state funded)
          && not (same_state d.deposit.lifecycle_state settle_proposed))
        ≡ false
      → (same_state d.deposit.lifecycle_state pledged
          || same_state d.deposit.lifecycle_state funded)
        ≡ false
      → d.deposit.lifecycle_state ≡ settle_proposed
  countered d allowed late = same_state-eq _ _ (counters _ _ allowed late)

  pub proposed_state :
      (d : Deposit A)
      → not (same_state d.deposit.lifecycle_state settle_proposed) ≡ false
      → d.deposit.lifecycle_state ≡ settle_proposed
  proposed_state d h = same_state-eq _ _ (ground arith)

  settled :
      {d : Deposit A}
      → IsLawful d
      → d.deposit.lifecycle_state ≡ settle_proposed
      → (s : Settlement A) × (d.settlement ≡ some s)
  settled {d} law e = subst (λ s. Needs s d) e law.needs

module _ {A : Type 0} ⦃F : Amount A⦄ where
  Legal-origin :
      {k : Known A} (first : Bool) (party : String) (t : Time) (o : Option (Settlement A))
      (m : String × Time → Program A)
      → (first ≡ false → (s : Settlement A) × (o ≡ some s))
      → ((begun : String × Time) → Legal k (m begun))
      → Legal k (origin first party t o m)
  unfolding origin
  Legal-origin true party t o m has l = l (party, t)
  Legal-origin false party t o m has l = Legal-deref _ _ (has refl).0 (has refl).1 (l _)

  pub settle-Legal :
      (url id : String) (body : Option (SettleRequest A)) → Legal none (settle url id body)
  unfolding settle
  settle-Legal url id body = Legal-decode _ _ λ req. Legal-reject_if _ _ _ _ _ λ _.
      Legal-reject_if _ _ _ _ _ λ _. Legal-reject_if _ _ _ _ _ λ _. Legal-fetch _ _ λ d law.
        Legal-reject_if _ _ _ _ _ λ allowed. Legal-reject_if _ _ _ _ _ λ _. Legal-time_now _ λ now.
          Legal-origin _ _ _ _ _ (λ late. settled law (countered d allowed late))
            λ begun.
              Legal-either _ _ _ _
                (λ first. Legal-check_transition _ _ _ λ edge.
                  Legal-advance law _ _ _ _ _ refl (along edge) refl refl (_, refl)
                    λ d'. Legal-fire_webhook _ _ _ Legal-reply)
                (λ late.
                  Legal-advance law _ _ _ _ _ refl (counter (countered d allowed late) refl) refl
                    refl (_, refl) λ d'. Legal-fire_webhook _ _ _ Legal-reply)

  pub settle_accept-Legal :
      (url id : String) (body : Option SettleAcceptRequest)
      → Legal {A = A} none (settle_accept url id body)
  unfolding settle_accept
  settle_accept-Legal url id body = Legal-decode _ _ λ req. Legal-reject_if _ _ _ _ _ λ _.
      Legal-fetch _ _ λ d law. Legal-reject_if _ _ _ _ _ λ proposed.
        Legal-require _ _ _ _ _ λ s has. Legal-reject_if _ _ _ _ _ λ _.
          Legal-check_transition _ _ _ λ edge.
            Legal-advance law closed _ agree _ (agreed d s) (rw has refl)
              (rw (proposed_state d proposed) (along edge)) refl refl tt
              λ d'. Legal-revoke _ _ (Legal-fire_webhook _ _ _ Legal-reply)

  pub dispute-Legal :
      (url id : String) (body : Option DisputeRequest) → Legal {A = A} none (dispute url id body)
  unfolding dispute
  dispute-Legal url id body = Legal-decode _ _ λ req. Legal-reject_if _ _ _ _ _ λ _.
      Legal-reject_if _ _ _ _ _ λ _. Legal-fetch _ _ λ d law. Legal-check_transition _ _ _ λ edge.
        Legal-advance law _ _ _ _ _ refl (along edge) refl refl tt
          λ d'. Legal-fire_webhook _ _ _ Legal-reply

  pub dispute_resolve-Legal :
      (url id : String) (body : Option (DisputeResolveRequest A))
      → Legal none (dispute_resolve url id body)
  unfolding dispute_resolve
  dispute_resolve-Legal url id body = Legal-decode _ _ λ req. Legal-reject_if _ _ _ _ _ λ _.
      Legal-fetch _ _ λ d law. Legal-check_transition _ _ _ λ edge.
        Legal-advance law _ _ _ _ _ refl (along edge) refl refl tt
          λ d'. Legal-revoke _ _ (Legal-fire_webhook _ _ _ Legal-reply)
