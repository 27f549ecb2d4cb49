-- ===== src/Api/Lifecycle/Deposits.antt =====
-- The handlers of Api/Deposits.antt, by the rules of Legal.antt.
use xmiete.Prelude.{◌≡◌, refl, String, Option, none, some, not, false, arith}
use xmiete.Amount.{Amount}
use xmiete.StateMachine.{state_for_identity_update}
use xmiete.Models.{identified, Deposit, IdentityUpdateRequest, PledgeRequest, ClaimRequest}
use xmiete.Api.Deposits.{
  identified_tenant, create_deposit, serve_pdf, get_deposit, update_identity, pledge, release,
  claim, get_receipt, get_release_receipt,
}
use xmiete.Api.Program.{Program}
use xmiete.Api.Lifecycle.Trail.{along, Needs}
use xmiete.Api.Lifecycle.Legal.{
  Known, Legal, Legal-reply, Legal-either, Legal-decode, Legal-check_transition, Legal-advance,
  Legal-fire_webhook, Legal-reject_if, Legal-fetch, Legal-store, Legal-revoke, Legal-email_receipt,
  Legal-email_release_receipt,
}

-- The outcome that moves a deposit moves it to IDENTIFIED.
pub identity_state :
    (s : String)
    → not (state_for_identity_update s).1 ≡ false
    → (state_for_identity_update s).0 ≡ identified
unfolding state_for_identity_update
identity_state s h = ground arith

module _ {A : Type 0} ⦃F : Amount A⦄ where
  pub create_deposit-Legal : (body : Option (Deposit A)) → Legal none (create_deposit body)
  unfolding create_deposit
  create_deposit-Legal body = Legal-decode _ _ λ d. Legal-reject_if _ _ _ _ _ λ _.
      Legal-reject_if _ _ _ _ _ λ _. Legal-reject_if _ _ _ _ _ λ _. Legal-store _ _ λ _. Legal-reply

  pub claim-Legal :
      (url id : String) (body : Option (ClaimRequest A)) → Legal none (claim url id body)
  unfolding claim
  claim-Legal url id body = Legal-decode _ _ λ req. Legal-reject_if _ _ _ _ _ λ _.
      Legal-fetch _ _ λ d law. Legal-check_transition _ _ _ λ edge.
        Legal-advance law _ _ _ _ _ refl (along edge) refl refl tt
          λ d'. Legal-fire_webhook _ _ _ Legal-reply

module _ {A : Type 0} where
  pub get_deposit-Legal : (id : String) → Legal {A = A} none (get_deposit id)
  unfolding get_deposit
  get_deposit-Legal id = Legal-fetch _ _ λ d law. Legal-reply

  identified-Needs :
      (s : String) (d : Deposit A)
      → not (state_for_identity_update s).1 ≡ false
      → Needs (state_for_identity_update s).0 d
  identified-Needs s d h = rw (identity_state s h) tt

  pub update_identity-Legal :
      (url id : String) (body : Option IdentityUpdateRequest)
      → Legal {A = A} none (update_identity url id body)
  unfolding update_identity
  update_identity-Legal url id body = Legal-decode {R = IdentityUpdateRequest} _ _ λ req.
      Legal-reject_if _ _ _ _ _ λ _. Legal-fetch _ _ λ d law.
        Legal-either _ _ _ _ (λ _. Legal-reply)
          λ verified. Legal-check_transition _ _ _ λ edge.
            Legal-advance law (state_for_identity_update req.eid_status).0 _ _ _
              (record d { tenant = identified_tenant req d.tenant }) refl (along edge) refl refl
              (identified-Needs req.eid_status _ verified)
              λ d'. Legal-fire_webhook _ _ _ Legal-reply

  pub pledge-Legal :
      (url id : String) (body : Option PledgeRequest) → Legal {A = A} none (pledge url id body)
  unfolding pledge
  pledge-Legal url id body = Legal-decode _ _ λ req. Legal-reject_if _ _ _ _ _ λ _.
      Legal-fetch _ _ λ d law. Legal-check_transition _ _ _ λ edge.
        Legal-advance law _ _ _ _ _ refl (along edge) refl refl tt
          λ d'. Legal-fire_webhook _ _ _ (Legal-email_receipt _ _ Legal-reply)

  pub release-Legal : (url id : String) → Legal {A = A} none (release url id)
  unfolding release
  release-Legal url id = Legal-fetch _ _ λ d law. Legal-check_transition _ _ _ λ edge.
      Legal-advance law _ _ _ _ _ refl (along edge) refl refl tt λ d'.
        Legal-revoke _ _ (Legal-fire_webhook _ _ _ (Legal-email_release_receipt _ _ Legal-reply))

  Legal-serve_pdf :
      {k : Known A} (o : Option String) (message : String) (m : ⊥ → Program A)
      → Legal k (serve_pdf o message m)
  unfolding serve_pdf
  Legal-serve_pdf none message m = Legal-reply
  Legal-serve_pdf (some bytes) message m = Legal-reply

  module _ (render : Deposit A → Option String) (id : String) where
    pub get_receipt-Legal : Legal none (get_receipt render id)
    unfolding get_receipt
    get_receipt-Legal =
        Legal-fetch _ _ λ d law. Legal-reject_if _ _ _ _ _ λ _. Legal-serve_pdf _ _ _

    pub get_release_receipt-Legal : Legal none (get_release_receipt render id)
    unfolding get_release_receipt
    get_release_receipt-Legal =
        Legal-fetch _ _ λ d law. Legal-reject_if _ _ _ _ _ λ _. Legal-serve_pdf _ _ _
