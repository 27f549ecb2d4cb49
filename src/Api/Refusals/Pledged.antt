-- ===== src/Api/Refusals/Pledged.antt =====
-- Requests for credentials that are refused: IssueCredential of server/internal/api/issuer_handlers.go
-- and ReceiveVpResponse of server/internal/api/verifier_handlers.go.
use mathlib.Core.Path.{subst}
use xmiete.Prelude.{ℕ, suc, String, Bool, false, Option, some, ◌≡◌, arith, not}
use xmiete.Amount.{Amount}
use xmiete.Models.{pledged, same_state, Deposit}
use xmiete.Host.{Host, Codec}
use xmiete.Repository.View.{view}
use xmiete.Issuance.Session.{SessionStore}
use xmiete.Api.Issuer.{issue_credential}
use xmiete.Api.Verifier.{VpResponse, receive_vp_response}
use xmiete.Api.Run.{World, run}
use xmiete.Api.Server.{Request, Server, handle, post_issue_credential, post_vp_response}
use xmiete.Api.Refusals.{
  reject_if-IsIdle, require-IsIdle, decode-IsIdle, fetch-IsIdle, time_now-IsIdle, vp_get-IsIdle,
}

-- The requests for a deposit that has to be pledged.
pub data ForPledged {A : Type 0} : Request A → String → Type 0 where
  issuing : {id valid_until : String} → ForPledged (post_issue_credential id valid_until) id
  presenting : {id : String} (body : Option VpResponse) → ForPledged (post_vp_response id body) id

clash : (b : Bool) → b ≡ false → not b ≡ false → ⊥
clash b no_b not_b = ground arith

module _ {A B S : Type 0} (json : Codec (Deposit A) B) (store : SessionStore S) (h : Host)
    (w : World A B S) where
  module _ (id : String) (d : Deposit A) (stored : view json w.db id ≡ some d)
      (unpledged : same_state d.deposit.lifecycle_state pledged ≡ false) where
    fetched_unpledged :
        (d' : Deposit A)
        → view json w.db id ≡ some d'
        → not (same_state d'.deposit.lifecycle_state pledged) ≡ false
        → ⊥
    fetched_unpledged d' v in_pledged =
        let same : d' ≡ d = cc (stored, v) in
        clash (same_state d.deposit.lifecycle_state pledged) unpledged (
          subst (λ (x : Deposit A). not (same_state x.deposit.lifecycle_state pledged) ≡ false) same
            in_pledged)

    module _ ⦃F : Amount A⦄ {K P : Type 0} (s : Server A K P) where
      -- On a deposit that is not PLEDGED, the request for a credential and the presentation of one
      -- change nothing: the tables, the sessions and the counter stay, and nothing is sent.
      pub refuses_unpledged :
          (q : Request A) → ForPledged q id → (n : ℕ) → (run json store (handle s q) h n w).2 ≡ w
      unfolding handle issue_credential receive_vp_response
      refuses_unpledged _ issuing n = fetch-IsIdle json store h w n id _ λ d' m v.
          reject_if-IsIdle json store h w m _ _ _ _ _
            λ in_pledged. absurd (fetched_unpledged d' v in_pledged)
      refuses_unpledged _ (presenting body) n = decode-IsIdle json store h w n body _ λ req.
          reject_if-IsIdle json store h w n _ _ _ _ _ λ _.
            reject_if-IsIdle json store h w n _ _ _ _ _ λ _. vp_get-IsIdle json store h w n _ _ (
              require-IsIdle json store h w n _ _ _ _ _ λ session _.
                time_now-IsIdle json store h w n _ λ t.
                  reject_if-IsIdle json store h w (suc n) _ _ _ _ _ λ _.
                    fetch-IsIdle json store h w (suc n) id _ λ d' m v.
                      reject_if-IsIdle json store h w m _ _ _ _ _
                        λ in_pledged. absurd (fetched_unpledged d' v in_pledged))
