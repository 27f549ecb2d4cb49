-- ===== src/Api/Lifecycle/Serve.antt =====
-- The server of Api/Server.antt, which answers any requests one after the other.
use mathlib.Core.Path.{subst}
use xmiete.Prelude.{ℕ, ◌≡◌, ◌≢◌, ◌++◌, String, Option, none, some, List, [], ◌∷◌, All, refl}
use xmiete.Amount.{Amount}
use xmiete.Models.{LifecycleState, funded, HistoryEntry, Deposit}
use xmiete.Host.{Host, Codec, Outcome, ok}
use xmiete.Repository.View.{view}
use xmiete.Issuance.Session.{SessionStore}
use xmiete.Api.Program.{Response}
use xmiete.Api.Run.{World, run}
use xmiete.Api.Server.{
  Request, Server, handle, serve, post_deposits, get_deposits, patch_identity, post_pledge,
  post_release, post_claim, get_receipts, get_release_receipts, post_partial_release,
  post_utility_settle, post_settle, post_settle_accept, post_dispute, post_dispute_resolve,
  get_issuer_metadata, get_jwk_set, post_validate, post_issue_credential, get_credential_offers,
  post_token, post_credential, get_status, get_revocation_list, post_vp_request, post_vp_response,
}
use xmiete.Api.Lifecycle.Trail.{Trail, Needs, IsLawful, opened, moved}
use xmiete.Api.Lifecycle.Legal.{Legal}
use xmiete.Api.Lifecycle.Deposits.{
  create_deposit-Legal, get_deposit-Legal, update_identity-Legal, pledge-Legal, release-Legal,
  claim-Legal, get_receipt-Legal, get_release_receipt-Legal,
}
use xmiete.Api.Lifecycle.Settlement.{
  settle-Legal, settle_accept-Legal, dispute-Legal, dispute_resolve-Legal,
}
use xmiete.Api.Lifecycle.Utility.{partial_release-Legal, utility_settle-Legal}
use xmiete.Api.Lifecycle.Credentials.{
  issue_credential-Legal, get_credential_offer-Legal, token-Legal, issue-Legal,
  get_credential_status-Legal, get_status_list-Legal, validate_document-Legal,
  issuer_metadata-Legal, get_jwks-Legal, create_vp_request-Legal, receive_vp_response-Legal,
}
use xmiete.Api.Lifecycle.Run.{AllLawful, Safe, run-Legal}

abbrev pub IsAnswered : {A : Type 0} → Outcome (Response A) → Type 0
IsAnswered {A} o = (r : Response A) × (o ≡ ok r)

-- The last entry of a history.
abbrev pub last_entry : List HistoryEntry → Option HistoryEntry
last_entry [] = none
last_entry (e ∷ []) = some e
last_entry (_ ∷ e ∷ es) = last_entry (e ∷ es)

pub last_entry-append :
    (es : List HistoryEntry) (e : HistoryEntry) → last_entry (es ++ e ∷ []) ≡ some e
last_entry-append [] e = refl
last_entry-append (_ ∷ []) e = refl
last_entry-append (_ ∷ f ∷ es) e = last_entry-append (f ∷ es) e

Trail-last_entry :
    {es : List HistoryEntry} {s : LifecycleState}
    → Trail es s
    → (e : HistoryEntry) × (last_entry es ≡ some e) × (e.state ≡ s)
Trail-last_entry (opened e only opens here) = (e, rw only refl, rw (opens, here) refl)
Trail-last_entry (moved {es} e trail move longer names) =
    (e, rw longer (last_entry-append es e), names)

module _ {A K P : Type 0} ⦃F : Amount A⦄ (s : Server A K P) where
  -- Each handler is legal, whatever the request.
  pub handle-Legal : (q : Request A) → Legal none (handle s q)
  unfolding handle
  handle-Legal (post_deposits body) = create_deposit-Legal body
  handle-Legal (get_deposits id) = get_deposit-Legal id
  handle-Legal (patch_identity id body) = update_identity-Legal s.webhook_url id body
  handle-Legal (post_pledge id body) = pledge-Legal s.webhook_url id body
  handle-Legal (post_release id) = release-Legal s.webhook_url id
  handle-Legal (post_claim id body) = claim-Legal s.webhook_url id body
  handle-Legal (get_receipts id) = get_receipt-Legal s.receipt id
  handle-Legal (get_release_receipts id) = get_release_receipt-Legal s.release_receipt id
  handle-Legal (post_partial_release id body) = partial_release-Legal s.webhook_url id body
  handle-Legal (post_utility_settle id body) = utility_settle-Legal s.webhook_url id body
  handle-Legal (post_settle id body) = settle-Legal s.webhook_url id body
  handle-Legal (post_settle_accept id body) = settle_accept-Legal s.webhook_url id body
  handle-Legal (post_dispute id body) = dispute-Legal s.webhook_url id body
  handle-Legal (post_dispute_resolve id body) = dispute_resolve-Legal s.webhook_url id body
  handle-Legal get_issuer_metadata = issuer_metadata-Legal s.issuer
  handle-Legal get_jwk_set = get_jwks-Legal s.issuer
  handle-Legal (post_validate body) = validate_document-Legal s.issuer body
  handle-Legal (post_issue_credential id valid_until) =
      issue_credential-Legal s.issuer id valid_until
  handle-Legal (get_credential_offers id) = get_credential_offer-Legal s.issuer id
  handle-Legal (post_token body) = token-Legal s.issuer body
  handle-Legal (post_credential authorization body) = issue-Legal s.issuer authorization body
  handle-Legal (get_status id) = get_credential_status-Legal s.issuer id
  handle-Legal get_revocation_list = get_status_list-Legal s.issuer
  handle-Legal (post_vp_request id) = create_vp_request-Legal s.issuer s.links id
  handle-Legal (post_vp_response id body) = receive_vp_response-Legal s.issuer s.webhook_url id body

  module _ {B S : Type 0} (json : Codec (Deposit A) B) (store : SessionStore S) (h : Host) where
    handle-Safe :
        (q : Request A) (n : ℕ) (w : World A B S)
        → AllLawful json w.db
        → Safe json store h (run json store (handle s q) h n w)
    handle-Safe q n w all = run-Legal json store h none (handle s q) (handle-Legal q) n w all tt

    serve-AllLawful :
        (qs : List (Request A)) (n : ℕ) (w : World A B S)
        → AllLawful json w.db
        → AllLawful json (serve s json store qs h n w).2.db
    unfolding serve
    serve-AllLawful [] n w all = all
    serve-AllLawful (q ∷ qs) n w all =
        let x = run json store (handle s q) h n w in
        serve-AllLawful qs x.1 x.2 (handle-Safe q n w all).keeps

    -- On lawful documents, the server never dereferences nil: however the database and the clock
    -- behave, each of the requests is answered.
    pub serve_answers :
        (qs : List (Request A)) (n : ℕ) (w : World A B S)
        → AllLawful json w.db
        → All IsAnswered (serve s json store qs h n w).0
    unfolding serve
    serve_answers [] n w all = tt
    serve_answers (q ∷ qs) n w all =
        let x = run json store (handle s q) h n w in
        let safe = handle-Safe q n w all in (safe.answers, serve_answers qs x.1 x.2 safe.keeps)

    module _ (qs : List (Request A)) (n : ℕ) (w : World A B S)
        (empty : (id : String) → view json w.db id ≡ none) (id : String) (d : Deposit A)
        (stored : view json (serve s json store qs h n w).2.db id ≡ some d) where
      empty-AllLawful : AllLawful json w.db
      empty-AllLawful = record { lawful = λ j d' v. cc (empty j, v) }

      -- A server that starts without deposits leaves, after any requests, one after the other, and any
      -- failures of the database, only documents whose history runs from REQUESTED along the transitions of the
      -- state machine (or stays in SETTLE_PROPOSED by a counter-proposal, or in PLEDGED by a presentation) up to the document's
      -- state, with the settlement in SETTLE_PROPOSED and the reservation in PARTIALLY_RELEASED.
      pub served-IsLawful : IsLawful d
      served-IsLawful = (serve-AllLawful qs n w empty-AllLawful).lawful id d stored

      -- A server that starts without deposits never comes to hold a document in FUNDED.
      pub never_funded : d.deposit.lifecycle_state ≢ funded
      never_funded e = subst (λ state. Needs state d) e served-IsLawful.needs

      -- On a server that started without deposits, the last entry of a stored history names the state
      -- of its document.
      pub history_names_state :
          (e : HistoryEntry) × (last_entry d.deposit.history ≡ some e)
          × (e.state ≡ d.deposit.lifecycle_state)
      history_names_state = Trail-last_entry served-IsLawful.trail
