-- ===== src/Api/Issuing/Once.antt =====
-- A bearer token gets one credential: `Credential` of server/internal/api/issuer_handlers.go over a
-- session store that keeps its contract.
use xmiete.Prelude.{
  ℕ, String, Bool, true, false, Option, none, some, ◌≡◌, refl, Option-cases, inl, inr,
}
use xmiete.Prelude.Split.{after_prefix}
use xmiete.Calendar.{Time}
use xmiete.Amount.{Amount}
use xmiete.Models.{Deposit}
use xmiete.Host.{Host, Codec}
use xmiete.Issuance.Session.{Session, SessionStore}
use xmiete.Issuance.Contract.{Contract}
use xmiete.Api.Call.{Answer, uuid, salts, session_by_token, consume_token}
use xmiete.Api.Program.{
  Program, Response, reply, error_response, decode, require, reject_if, time_now, ask, load,
}
use xmiete.Api.Issuer.{Issuer, CredentialRequest, issue}
use xmiete.Api.Run.{World, run}
use xmiete.Api.Issuing.{is_issued, Gated, Spent-refuses, issues-Spent}

module _ {A : Type 0} {bearer : String} where
  Gated-error :
      (status : ℕ) (message code : String)
      → Gated {A = A} bearer (reply (error_response status message code))
  Gated-error status message code = record { duties = refl }

  pub Gated-require :
      {R : Type 0} (o : Option R) (status : ℕ) (message code : String) (m : R → Program A)
      → ((r : R) → o ≡ some r → Gated bearer (m r))
      → Gated bearer (require o status message code m)
  unfolding require
  Gated-require none status message code m g = Gated-error status message code
  Gated-require (some r) _ _ _ m g = g r refl

  Gated-given :
      {R : Type 0} (o : Option R) (status : ℕ) (message code : String) (m : R → Program A) (r : R)
      → o ≡ some r
      → Gated bearer (m r)
      → Gated bearer (require o status message code m)
  unfolding require
  Gated-given o status message code m r e g = rw (e, require) g

  Gated-decode :
      {R : Type 0} (o : Option R) (m : R → Program A)
      → ((r : R) → Gated bearer (m r))
      → Gated bearer (decode o m)
  unfolding decode
  Gated-decode none m g = Gated-error _ _ _
  Gated-decode (some r) m g = g r

  Gated-reject_if :
      (b : Bool) (status : ℕ) (message code : String) (m : Unit {0} → Program A)
      → Gated bearer (m tt)
      → Gated bearer (reject_if b status message code m)
  unfolding reject_if
  Gated-reject_if true status message code m g = Gated-error status message code
  Gated-reject_if false _ _ _ m g = g

  Gated-time_now :
      (m : Time → Program A) → ((t : Time) → Gated bearer (m t)) → Gated bearer (time_now m)
  unfolding time_now
  Gated-time_now m g = record { duties = λ t. (g t).duties }

  Gated-uuid :
      (m : String → Program A) → ((a : String) → Gated bearer (m a)) → Gated bearer (ask uuid m)
  unfolding ask
  Gated-uuid m g = record { duties = λ a. (g a).duties }

  Gated-salts :
      (m : Answer salts → Program A)
      → ((a : Answer salts) → Gated bearer (m a))
      → Gated bearer (ask salts m)
  unfolding ask
  Gated-salts m g = record { duties = λ a. (g a).duties }

  Gated-session :
      (t : String) (m : Option Session → Program A)
      → ((a : Option Session) → Gated bearer (m a))
      → Gated bearer (ask (session_by_token t) m)
  unfolding ask
  Gated-session t m g = record { duties = λ a. (g a).duties }

  Gated-load :
      (id : String) (status : ℕ) (message code : String) (m : Deposit A → Program A)
      → ((d : Deposit A) → Gated bearer (m d))
      → Gated bearer (load id status message code m)
  unfolding load
  Gated-load id _ _ _ m g = record { duties = (refl, refl, λ d. (g d).duties) }

  -- The token is consumed, and what comes next replies.
  Gated-consume :
      (id : String) (status : ℕ) (message code : String) (m : Session → Program A)
      → ((session : Session) → (r : Response A) × (m session ≡ reply r))
      → Gated bearer (ask (consume_token bearer id) λ o. require o status message code m)
  unfolding ask require
  Gated-consume id status message code m replies = record {
    duties = (refl, (_, refl, refl), replies);
  }

module _ {A K P : Type 0} ⦃F : Amount A⦄ (s : Issuer A K P) where
  pub issue-Gated :
      (authorization bearer : String) (body : Option CredentialRequest)
      → after_prefix "Bearer " authorization ≡ some bearer
      → Gated bearer (issue s authorization body)
  unfolding issue
  issue-Gated authorization bearer body given = Gated-given _ _ _ _ _ bearer given (
      Gated-session _ _ λ fetched. Gated-require _ _ _ _ _ λ session _. Gated-time_now _ λ t.
        Gated-reject_if _ _ _ _ _ (
          Gated-decode _ _ λ req. Gated-reject_if _ _ _ _ _ (
            Gated-load _ _ _ _ _ λ d. Gated-uuid _ λ fresh. Gated-time_now _ λ now.
              Gated-salts _ λ read.
                Gated-require _ _ _ _ _ λ built _. Gated-consume _ _ _ _ _ λ session'. (_, refl))))

  module _ {B S : Type 0} (json : Codec (Deposit A) B) (store : SessionStore S)
      (contract : Contract store) where
    issue-without :
        (authorization : String) (body : Option CredentialRequest) (h : Host) (n : ℕ)
        (w : World A B S)
        → after_prefix "Bearer " authorization ≡ none
        → is_issued (run json store (issue s authorization body) h n w).0 ≡ false
    unfolding issue run require
    issue-without authorization body h n w e = rw e refl

    -- After a request that was answered by a credential, a request with the same header Authorization
    -- is not answered by one, whatever its body, if the session store keeps its contract.
    pub issue_once :
        (authorization : String) (body : Option CredentialRequest) (h : Host) (n : ℕ)
        (w : World A B S)
        → is_issued (run json store (issue s authorization body) h n w).0 ≡ true
        → (body' : Option CredentialRequest) (h' : Host) (m : ℕ)
        → is_issued
            (run json store
              (issue s authorization body')
              h'
              m
              (run json store (issue s authorization body) h n w).2).0
          ≡ false
    issue_once authorization body h n w issued body' h' m =
        elim (Option-cases (after_prefix "Bearer " authorization)) [
          | inl absent ↦ issue-without authorization body' h' m _ absent
          | inr (bearer, given) ↦
              let spent =
                issues-Spent bearer json store contract h (issue s authorization body)
                  (issue-Gated authorization bearer body given) n w issued in
              Spent-refuses bearer json store contract h' (issue s authorization body')
                (issue-Gated authorization bearer body' given) m _ spent
        ]
