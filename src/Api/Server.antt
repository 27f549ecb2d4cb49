-- ===== src/Api/Server.antt =====
-- The routes of server/internal/api/router.go, each to its handler, and a server that
-- answers one request after the other. A body is `none` where it does not decode. The middleware in
-- front of the handlers recovers from a panic, so that the server goes on with the next request.
use xmiete.Prelude.{ℕ, String, Option, List, [], ◌∷◌}
use xmiete.Amount.{Amount}
use xmiete.Models.{
  Deposit, IdentityUpdateRequest, PledgeRequest, ClaimRequest, SettleRequest, SettleAcceptRequest,
  DisputeRequest, DisputeResolveRequest, PartialReleaseRequest, UtilitySettleRequest,
}
use xmiete.Host.{Host, Codec, Outcome}
use xmiete.Issuance.Session.{SessionStore}
use xmiete.Api.Program.{Program, Response}
use xmiete.Api.Deposits.{
  create_deposit, get_deposit, update_identity, pledge, release, claim, get_receipt,
  get_release_receipt,
}
use xmiete.Api.Settlement.{settle, settle_accept, dispute, dispute_resolve}
use xmiete.Api.Utility.{partial_release, utility_settle}
use xmiete.Api.Issuer.{
  TokenForm, CredentialRequest, ValidateRequest, Issuer, issue_credential, get_credential_offer,
  token, issue, get_credential_status, get_status_list, validate_document, issuer_metadata,
  get_jwks,
}
use xmiete.Api.Verifier.{VpResponse, Links, create_vp_request, receive_vp_response}
use xmiete.Api.Run.{World, run}

-- The identifier is the part `{id}` of the route.
pub data Request (A : Type 0) : Type 0 where
  post_deposits : Option (Deposit A) → Request A
  get_deposits : String → Request A
  patch_identity : String → Option IdentityUpdateRequest → Request A
  post_pledge : String → Option PledgeRequest → Request A
  post_release : String → Request A
  post_claim : String → Option (ClaimRequest A) → Request A
  get_receipts get_release_receipts : String → Request A
  post_partial_release : String → Option (PartialReleaseRequest A) → Request A
  post_utility_settle : String → Option (UtilitySettleRequest A) → Request A
  post_settle : String → Option (SettleRequest A) → Request A
  post_settle_accept : String → Option SettleAcceptRequest → Request A
  post_dispute : String → Option DisputeRequest → Request A
  post_dispute_resolve : String → Option (DisputeResolveRequest A) → Request A
  get_issuer_metadata get_jwk_set : Request A
  post_validate : Option (ValidateRequest A) → Request A
  -- with the `valid_until` of the body
  post_issue_credential : String → String → Request A
  get_credential_offers : String → Request A
  post_token : Option TokenForm → Request A
  -- with the header Authorization
  post_credential : String → Option CredentialRequest → Request A
  get_status : String → Request A
  get_revocation_list : Request A
  post_vp_request : String → Request A
  post_vp_response : String → Option VpResponse → Request A

-- The fields of `Server` that the handlers use beside the stores.
pub record Server (A K P : Type 0) : Type 0 where
  pub webhook_url : String
  pub receipt : Deposit A → Option String
  pub release_receipt : Deposit A → Option String
  pub issuer : Issuer A K P
  pub links : Links

module _ {A K P : Type 0} ⦃F : Amount A⦄ (s : Server A K P) where
  unfoldable pub handle : Request A → Program A
  handle (post_deposits body) = create_deposit body
  handle (get_deposits id) = get_deposit id
  handle (patch_identity id body) = update_identity s.webhook_url id body
  handle (post_pledge id body) = pledge s.webhook_url id body
  handle (post_release id) = release s.webhook_url id
  handle (post_claim id body) = claim s.webhook_url id body
  handle (get_receipts id) = get_receipt s.receipt id
  handle (get_release_receipts id) = get_release_receipt s.release_receipt id
  handle (post_partial_release id body) = partial_release s.webhook_url id body
  handle (post_utility_settle id body) = utility_settle s.webhook_url id body
  handle (post_settle id body) = settle s.webhook_url id body
  handle (post_settle_accept id body) = settle_accept s.webhook_url id body
  handle (post_dispute id body) = dispute s.webhook_url id body
  handle (post_dispute_resolve id body) = dispute_resolve s.webhook_url id body
  handle get_issuer_metadata = issuer_metadata s.issuer
  handle get_jwk_set = get_jwks s.issuer
  handle (post_validate body) = validate_document s.issuer body
  handle (post_issue_credential id valid_until) = issue_credential s.issuer id valid_until
  handle (get_credential_offers id) = get_credential_offer s.issuer id
  handle (post_token body) = token s.issuer body
  handle (post_credential authorization body) = issue s.issuer authorization body
  handle (get_status id) = get_credential_status s.issuer id
  handle get_revocation_list = get_status_list s.issuer
  handle (post_vp_request id) = create_vp_request s.issuer s.links id
  handle (post_vp_response id body) = receive_vp_response s.issuer s.webhook_url id body

  module _ {B S : Type 0} (json : Codec (Deposit A) B) (store : SessionStore S) where
    unfoldable pub serve :
        List (Request A) → Host → ℕ → World A B S → List (Outcome (Response A)) × ℕ × World A B S
    serve [] h n w = ([], n, w)
    serve (q ∷ qs) h n w =
        let (answer, n', w') = run json store (handle q) h n w in
        let (answers, n'', w'') = serve qs h n' w' in (answer ∷ answers, n'', w'')
