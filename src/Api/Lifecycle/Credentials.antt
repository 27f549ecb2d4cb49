-- ===== src/Api/Lifecycle/Credentials.antt =====
-- The handlers of Api/Issuer.antt and Api/Verifier.antt, by the rules of Legal.antt.
use xmiete.Prelude.{◌≡◌, refl, String, false, not, Option, none, arith}
use xmiete.Amount.{Amount}
use xmiete.Models.{LifecycleState, pledged, same_state, same_state-eq, Deposit}
use xmiete.Api.Issuer.{
  Issuer, TokenForm, CredentialRequest, ValidateRequest, issue_credential, get_credential_offer,
  token, issue, get_credential_status, get_status_list, validate_document, issuer_metadata,
  get_jwks,
}
use xmiete.Api.Verifier.{VpResponse, Links, create_vp_request, receive_vp_response}
use xmiete.Api.Lifecycle.Trail.{presented, Needs}
use xmiete.Api.Lifecycle.Legal.{
  Legal, Legal-reply, Legal-decode, Legal-advance, Legal-fire_webhook, Legal-reject_if,
  Legal-require, Legal-pass, Legal-ask, Legal-load, Legal-fetch, Legal-time_now,
}

-- The test of a handler that requires a state.
in_state : (s t : LifecycleState) → not (same_state s t) ≡ false → s ≡ t
in_state s t e = same_state-eq s t (ground arith)

pledged-Needs : {A : Type 0} (s : LifecycleState) (d : Deposit A) → s ≡ pledged → Needs s d
pledged-Needs s d e = rw e tt

module _ {A K P : Type 0} (s : Issuer A K P) where
  pub issue_credential-Legal :
      (id valid_until : String) → Legal none (issue_credential s id valid_until)
  unfolding issue_credential
  issue_credential-Legal id valid_until = Legal-fetch _ _ λ d law. Legal-reject_if _ _ _ _ _ λ _.
      Legal-ask _ _ λ allocated.
        Legal-require _ _ _ _ _
          λ index _. Legal-ask _ _ λ created. Legal-require _ _ _ _ _ λ session _. Legal-reply

  pub get_credential_offer-Legal : (id : String) → Legal none (get_credential_offer s id)
  unfolding get_credential_offer
  get_credential_offer-Legal id = Legal-ask _ _ λ fetched.
      Legal-require _ _ _ _ _
        λ session _. Legal-time_now _ λ now. Legal-reject_if _ _ _ _ _ λ _. Legal-reply

  pub token-Legal : (body : Option TokenForm) → Legal none (token s body)
  unfolding token
  token-Legal body = Legal-require _ _ _ _ _ λ form _. Legal-reject_if _ _ _ _ _ λ _.
      Legal-reject_if _ _ _ _ _
        λ _. Legal-ask _ _ λ exchanged. Legal-require _ _ _ _ _ λ pair _. Legal-reply

  pub get_credential_status-Legal : (id : String) → Legal none (get_credential_status s id)
  unfolding get_credential_status
  get_credential_status-Legal id =
      Legal-ask _ _
        λ answer. Legal-require _ _ _ _ _ λ revoked _. Legal-time_now _ λ now. Legal-reply

  pub get_status_list-Legal : Legal none (get_status_list s)
  unfolding get_status_list
  get_status_list-Legal = Legal-ask _ _ λ answer.
      Legal-require _ _ _ _ _
        λ indices _. Legal-time_now _ λ now. Legal-require _ _ _ _ _ λ signed _. Legal-reply

  pub issuer_metadata-Legal : Legal none (issuer_metadata s)
  unfolding issuer_metadata
  issuer_metadata-Legal = Legal-reply

  pub get_jwks-Legal : Legal none (get_jwks s)
  unfolding get_jwks
  get_jwks-Legal = Legal-reply

  pub create_vp_request-Legal :
      (links : Links) (id : String) → Legal none (create_vp_request s links id)
  unfolding create_vp_request
  create_vp_request-Legal links id = Legal-fetch _ _ λ d law. Legal-ask _ _ λ session_id.
      Legal-ask _ _ λ nonce. Legal-time_now _ λ created_at.
        Legal-time_now _ λ now. Legal-ask _ _ λ _. Legal-require _ _ _ _ _ λ json _. Legal-reply

  module _ ⦃F : Amount A⦄ where
    pub validate_document-Legal :
        (body : Option (ValidateRequest A)) → Legal none (validate_document s body)
    unfolding validate_document
    validate_document-Legal body = Legal-decode _ _ λ req. Legal-time_now _ λ now. Legal-reply

    pub issue-Legal :
        (authorization : String) (body : Option CredentialRequest)
        → Legal none (issue s authorization body)
    unfolding issue
    issue-Legal authorization body = Legal-require _ _ _ _ _ λ bearer _. Legal-ask _ _ λ fetched.
        Legal-require _ _ _ _ _ λ session _. Legal-time_now _ λ t. Legal-reject_if _ _ _ _ _ λ _.
          Legal-decode _ _ λ req. Legal-reject_if _ _ _ _ _ λ _. Legal-load _ _ _ _ _ λ d law.
            Legal-ask _ _ λ fresh. Legal-time_now _ λ now. Legal-ask _ _ λ read.
              Legal-require _ _ _ _ _
                λ built _. Legal-ask _ _ λ consumed. Legal-require _ _ _ _ _ λ _ _. Legal-reply

    pub receive_vp_response-Legal :
        (url id : String) (body : Option VpResponse)
        → Legal none (receive_vp_response s url id body)
    unfolding receive_vp_response
    receive_vp_response-Legal url id body = Legal-decode _ _ λ req. Legal-reject_if _ _ _ _ _ λ _.
        Legal-reject_if _ _ _ _ _ λ _. Legal-ask _ _ λ fetched. Legal-require _ _ _ _ _ λ session _.
          Legal-time_now _ λ t. Legal-reject_if _ _ _ _ _ λ _. Legal-fetch _ _ λ d law.
            Legal-reject_if _ _ _ _ _ λ in_pledged. Legal-time_now _ λ t1. Legal-time_now _ λ t2.
              Legal-time_now _ λ t3. Legal-time_now _ λ t4. Legal-pass _ _ _ _ λ claims _.
                Legal-reject_if _ _ _ _ _ λ _. Legal-time_now _ λ now.
                  let state = d.deposit.lifecycle_state in
                  let is_pledged = in_state state pledged in_pledged in
                  Legal-advance law _ _ _ _ _ refl (presented is_pledged is_pledged) refl refl
                    (pledged-Needs state _ is_pledged)
                    λ d'. Legal-ask _ _ λ _. Legal-fire_webhook _ _ _ Legal-reply
