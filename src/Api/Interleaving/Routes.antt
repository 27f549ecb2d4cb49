-- ===== src/Api/Interleaving/Routes.antt =====
-- The handlers for credentials, by the rules of Orderly.antt, and the routes.
use xmiete.Prelude.{String, Option}
use xmiete.Amount.{Amount}
use xmiete.Api.Server.{
  Request, Server, handle, post_deposits, get_deposits, patch_identity, post_pledge, post_release,
  post_claim, get_receipts, get_release_receipts, post_partial_release, post_utility_settle,
  post_settle, post_settle_accept, post_dispute, post_dispute_resolve, get_issuer_metadata,
  get_jwk_set, post_validate, post_issue_credential, get_credential_offers, post_token,
  post_credential, get_status, get_revocation_list, post_vp_request, post_vp_response,
}
use xmiete.Api.Issuer.{
  Issuer, TokenForm, CredentialRequest, ValidateRequest, issue_credential, get_credential_offer,
  token, issue, get_credential_status, get_status_list, validate_document, issuer_metadata,
  get_jwks,
}
use xmiete.Api.Verifier.{VpResponse, Links, create_vp_request, receive_vp_response}
use xmiete.Api.Interleaving.Orderly.{Orderly, Orderly-reply, Orderly-update, keeps_some, orderly}
use xmiete.Api.Interleaving.Handlers.{
  get_deposit-Orderly, update_identity-Orderly, release-Orderly, pledge-Orderly,
  get_receipt-Orderly, get_release_receipt-Orderly, create_deposit-Orderly, claim-Orderly,
  partial_release-Orderly, utility_settle-Orderly, settle-Orderly, settle_accept-Orderly,
  dispute-Orderly, dispute_resolve-Orderly,
}

module _ {A K P : Type 0} (s : Issuer A K P) where
  issue_credential-Orderly : (id valid_until : String) → Orderly (issue_credential s id valid_until)
  unfolding issue_credential
  issue_credential-Orderly id valid_until = search orderly depth 14

  get_credential_offer-Orderly : (id : String) → Orderly (get_credential_offer s id)
  unfolding get_credential_offer
  get_credential_offer-Orderly id = search orderly depth 14

  token-Orderly : (body : Option TokenForm) → Orderly (token s body)
  unfolding token
  token-Orderly body = search orderly depth 14

  get_credential_status-Orderly : (id : String) → Orderly (get_credential_status s id)
  unfolding get_credential_status
  get_credential_status-Orderly id = search orderly depth 14

  get_status_list-Orderly : Orderly (get_status_list s)
  unfolding get_status_list
  get_status_list-Orderly = search orderly depth 14

  issuer_metadata-Orderly : Orderly (issuer_metadata s)
  unfolding issuer_metadata
  issuer_metadata-Orderly = Orderly-reply

  get_jwks-Orderly : Orderly (get_jwks s)
  unfolding get_jwks
  get_jwks-Orderly = Orderly-reply

  create_vp_request-Orderly : (links : Links) (id : String) → Orderly (create_vp_request s links id)
  unfolding create_vp_request
  create_vp_request-Orderly links id = search orderly depth 16

  module _ ⦃F : Amount A⦄ where
    validate_document-Orderly :
        (body : Option (ValidateRequest A)) → Orderly (validate_document s body)
    unfolding validate_document
    validate_document-Orderly body = search orderly depth 14

    issue-Orderly :
        (authorization : String) (body : Option CredentialRequest)
        → Orderly (issue s authorization body)
    unfolding issue
    issue-Orderly authorization body = search orderly depth 20

    receive_vp_response-Orderly :
        (url id : String) (body : Option VpResponse) → Orderly (receive_vp_response s url id body)
    unfolding receive_vp_response
    receive_vp_response-Orderly url id body = search (orderly, Orderly-update, keeps_some) depth 24

module _ {A K P : Type 0} ⦃F : Amount A⦄ (s : Server A K P) where
  -- Whatever the request.
  pub handle-Orderly : (q : Request A) → Orderly (handle s q)
  unfolding handle
  handle-Orderly (post_deposits body) = create_deposit-Orderly body
  handle-Orderly (get_deposits id) = get_deposit-Orderly id
  handle-Orderly (patch_identity id body) = update_identity-Orderly s.webhook_url id body
  handle-Orderly (post_pledge id body) = pledge-Orderly s.webhook_url id body
  handle-Orderly (post_release id) = release-Orderly s.webhook_url id
  handle-Orderly (post_claim id body) = claim-Orderly s.webhook_url id body
  handle-Orderly (get_receipts id) = get_receipt-Orderly s.receipt id
  handle-Orderly (get_release_receipts id) = get_release_receipt-Orderly s.release_receipt id
  handle-Orderly (post_partial_release id body) = partial_release-Orderly s.webhook_url id body
  handle-Orderly (post_utility_settle id body) = utility_settle-Orderly s.webhook_url id body
  handle-Orderly (post_settle id body) = settle-Orderly s.webhook_url id body
  handle-Orderly (post_settle_accept id body) = settle_accept-Orderly s.webhook_url id body
  handle-Orderly (post_dispute id body) = dispute-Orderly s.webhook_url id body
  handle-Orderly (post_dispute_resolve id body) = dispute_resolve-Orderly s.webhook_url id body
  handle-Orderly get_issuer_metadata = issuer_metadata-Orderly s.issuer
  handle-Orderly get_jwk_set = get_jwks-Orderly s.issuer
  handle-Orderly (post_validate body) = validate_document-Orderly s.issuer body
  handle-Orderly (post_issue_credential id valid_until) =
      issue_credential-Orderly s.issuer id valid_until
  handle-Orderly (get_credential_offers id) = get_credential_offer-Orderly s.issuer id
  handle-Orderly (post_token body) = token-Orderly s.issuer body
  handle-Orderly (post_credential authorization body) = issue-Orderly s.issuer authorization body
  handle-Orderly (get_status id) = get_credential_status-Orderly s.issuer id
  handle-Orderly get_revocation_list = get_status_list-Orderly s.issuer
  handle-Orderly (post_vp_request id) = create_vp_request-Orderly s.issuer s.links id
  handle-Orderly (post_vp_response id body) =
      receive_vp_response-Orderly s.issuer s.webhook_url id body
