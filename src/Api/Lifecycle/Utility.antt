-- ===== src/Api/Lifecycle/Utility.antt =====
-- The handlers of Api/Utility.antt, by the rules of Legal.antt.
use xmiete.Prelude.{◌≡◌, refl, String, false, not, Option, none, some, arith}
use xmiete.Amount.{Amount}
use xmiete.Models.{
  partially_released, settle_proposed, closed, same_state, same_state-eq, Deposit,
  PartialReleaseRequest, UtilitySettleRequest,
}
use xmiete.Api.Utility.{reconcile, reconciled, utility_settlement, partial_release, utility_settle}
use xmiete.Api.Lifecycle.Trail.{along}
use xmiete.Api.Lifecycle.Legal.{
  Legal, Legal-reply, Legal-decode, Legal-require, Legal-time_now, Legal-check_transition,
  Legal-advance, Legal-fire_webhook, Legal-reject_if, Legal-fetch, Legal-either,
}

module _ {A : Type 0} where
  pub reserved_state :
      (d : Deposit A)
      → not (same_state d.deposit.lifecycle_state partially_released) ≡ false
      → d.deposit.lifecycle_state ≡ partially_released
  reserved_state d h = same_state-eq _ _ (ground arith)

module _ {A : Type 0} ⦃F : Amount A⦄ where
  pub partial_release-Legal :
      (url id : String) (body : Option (PartialReleaseRequest A))
      → Legal none (partial_release url id body)
  unfolding partial_release
  partial_release-Legal url id body = Legal-decode _ _ λ req. Legal-reject_if _ _ _ _ _ λ _.
      Legal-reject_if _ _ _ _ _ λ _. Legal-require _ _ _ _ _ λ billing_end _.
        Legal-fetch _ _ λ d law. Legal-check_transition _ _ _ λ edge.
          Legal-advance law _ _ _ _ _ refl (along edge) refl refl (_, refl)
            λ d'. Legal-fire_webhook _ _ _ Legal-reply

  pub utility_settle-Legal :
      (url id : String) (body : Option (UtilitySettleRequest A))
      → Legal none (utility_settle url id body)
  unfolding utility_settle
  utility_settle-Legal url id body = Legal-decode _ _ λ req. Legal-reject_if _ _ _ _ _ λ _.
      Legal-fetch _ _ λ d law. Legal-reject_if _ _ _ _ _ λ partial. Legal-require _ _ _ _ _ λ u has.
        Legal-time_now _ λ now.
          Legal-either _ _ _ _
            (λ _. Legal-check_transition _ _ _ λ edge.
              Legal-advance law closed _ (reconcile req now) _ (reconciled req now d u)
                (rw has refl) (rw (reserved_state d partial) (along edge)) refl refl tt
                λ d'. Legal-fire_webhook _ _ _ Legal-reply)
            (λ _. Legal-check_transition _ _ _ λ edge.
              Legal-advance law settle_proposed _
                (λ d'.
                  reconcile req now (record d' {
                    settlement = some (utility_settlement req now u.reserved_amount);
                  }))
                _
                (reconciled req now
                  (record d { settlement = some (utility_settlement req now u.reserved_amount) }) u)
                (rw has refl) (rw (reserved_state d partial) (along edge)) refl refl (_, refl)
                λ d'. Legal-fire_webhook _ _ _ Legal-reply)
