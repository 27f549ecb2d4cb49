-- ===== src/Api/Interleaving/Rush.antt =====
-- Requests for a credential by one bearer token that are served at the same time: the steps of
-- Api/Interleaving.antt over `Credential` of server/internal/api/issuer_handlers.go.
pub mod Pool
use mathlib.Core.Path.{subst}
use xmiete.Prelude.{
  ℕ, zero, suc, ◌≤◌, ◌≡◌, ◌⊎◌, inl, inr, refl, sym, ap, ◌∙◌, String, Bool, true, false, Option,
  none, some, List, [], ◌∷◌, ◌++◌, All, map, arith, if◌then◌else◌, Bool-cases, Option-cases,
}
use xmiete.Prelude.Split.{after_prefix}
use xmiete.Amount.{Amount}
use xmiete.Models.{Deposit}
use xmiete.Host.{Host, Codec, Outcome, is_ok}
use xmiete.Repository
use xmiete.Issuance.Session.{SessionStore}
use xmiete.Issuance.Contract.{Contract}
use xmiete.Api.Call.{
  answered, perform, uuid, salts, allocate_index, create_session, session_by_id, session_by_token,
  exchange_code, consume_token, credential_status, revoked_indices, vp_create, vp_get, vp_delete,
}
use xmiete.Api.Program.{
  Program, Response, reply, panic, now, call, create, get_by_id, update_state, revoke_by_deposit_id,
  post_webhook, send_receipt, send_release_receipt,
}
use xmiete.Api.Run.{World, fetched}
use xmiete.Api.Issuer.{Issuer, CredentialRequest, issue}
use xmiete.Api.Server.{Server, handle, post_credential}
use xmiete.Api.Issuing.{is_issued, Gated, fetched-Duties, answered-some, answered-none}
use xmiete.Api.Issuing.Once.{issue-Gated, Gated-require}
use xmiete.Api.Interleaving.{Flight, flying, landed, step, advance, Busy, proceed, turn, turns}

-- A request whose token was accepted.
abbrev pub Accepted : {A : Type 0} → Flight A → Type 0
Accepted {A} (flying p) = (r : Response A) × (p ≡ reply r)
Accepted (landed o) = Unit

module _ (bearer : String) where
  -- A request that got no credential so far.
  abbrev pub Waiting : {A : Type 0} → Flight A → Type 0
  Waiting (flying p) = Gated bearer p
  Waiting (landed o) = is_issued o ≡ false

  abbrev pub OneAccepted : {A : Type 0} → List (Flight A) → Type 0
  OneAccepted [] = ⊥
  OneAccepted (p ∷ ps) = (Accepted p × All Waiting ps) ⊎ (Waiting p × OneAccepted ps)

module _ {S : Type 0} (bearer : String) (store : SessionStore S) where
  -- The store does not accept the token any more.
  abbrev pub Spent : S → Type 0
  Spent s =
      (id : String) (h : Host) (n : ℕ) → is_ok (store.consume_by_token bearer id h n s).0 ≡ false

  -- After a step: the requests wait, or the step has spent the token.
  abbrev pub Moves : S → S → Type 0 → Type 0 → Type 0
  Moves before after_it Wait Win =
      (Wait × (Spent before → Spent after_it)) ⊎ ((Spent before → ⊥) × Win × Spent after_it)

  module _ {A B : Type 0} (json : Codec (Deposit A) B) (contract : Contract store) (h : Host) where
    consume-Moves :
        (t id : String) (f : Option _ → Program A) (n : ℕ) (s : S)
        → Gated bearer (call (consume_token t id) f)
        → (let x = store.consume_by_token t id h n s in
            Moves s x.2
              (Gated bearer (f (answered x.0)))
              ((r : Response A) × (f (answered x.0) ≡ reply r)))
    consume-Moves t id f n s g =
        let (same, (r, replies, none_given), then_replies) = g.duties in
        let x = store.consume_by_token t id h n s in
        elim (Bool-cases (is_ok x.0)) [
          | inr refused ↦
              let program : f (answered x.0) ≡ reply r =
                ap f (answered-none x.0 refused) ∙ replies in
              inl (
                subst (Gated bearer) (sym program) (record { duties = none_given }),
                subst Spent (sym (contract.refused t id h n s refused)),
              )
          | inl accepted ↦
              let (session, e) = answered-some x.0 accepted in
              let (r', then_) = then_replies session in
              let spent : Spent x.2 = λ other_id h' m.
                subst (λ b. is_ok (store.consume_by_token b other_id h' m x.2).0 ≡ false) same
                  (contract.once t id h n s accepted other_id h' m) in
              inr (
                λ was.
                    let no =
                      subst (λ b. is_ok (store.consume_by_token b id h n s).0 ≡ false) (sym same)
                        (was id h n) in
                    ground (arith, accepted, no),
                (r', ap f e ∙ then_),
                spent,
              )
        ]

    pub step-Waiting :
        (p : Program A) (n : ℕ) (w : World A B S)
        → Gated bearer p
        → (let x = step json store h p n w in
            Moves w.wallets.sessions x.2.wallets.sessions (Waiting bearer x.0) (Accepted x.0))
    unfolding step perform
    step-Waiting (reply r) n w g = inl (g.duties, λ spent. spent)
    step-Waiting panic n w g = inl (refl, λ spent. spent)
    step-Waiting (now f) n w g = inl (record { duties = g.duties (h.clock n) }, λ spent. spent)
    step-Waiting (call uuid f) n w g = inl (record { duties = g.duties _ }, λ spent. spent)
    step-Waiting (call salts f) n w g = inl (record { duties = g.duties _ }, λ spent. spent)
    step-Waiting (call (session_by_token t) f) n w g = inl (
      record { duties = g.duties _ },
      subst Spent (sym (contract.reads t h n w.wallets.sessions)),
    )
    step-Waiting (call (consume_token t id) f) n w g = consume-Moves t id f n w.wallets.sessions g
    step-Waiting (get_by_id id f) n w g =
        let x = Repository.get_by_id json id h n w.db in
        inl (record { duties = fetched-Duties bearer id f g.duties x.0 }, λ spent. spent)
    step-Waiting (call allocate_index f) n w g = absurd g.duties
    step-Waiting (call (create_session _ _ _) f) n w g = absurd g.duties
    step-Waiting (call (session_by_id _) f) n w g = absurd g.duties
    step-Waiting (call (exchange_code _) f) n w g = absurd g.duties
    step-Waiting (call (credential_status _) f) n w g = absurd g.duties
    step-Waiting (call revoked_indices f) n w g = absurd g.duties
    step-Waiting (call (vp_create _) f) n w g = absurd g.duties
    step-Waiting (call (vp_get _) f) n w g = absurd g.duties
    step-Waiting (call (vp_delete _) f) n w g = absurd g.duties
    step-Waiting (create _ _) n w g = absurd g.duties
    step-Waiting (update_state _ _ _ _ _) n w g = absurd g.duties
    step-Waiting (revoke_by_deposit_id _ _) n w g = absurd g.duties
    step-Waiting (post_webhook _ _) n w g = absurd g.duties
    step-Waiting (send_receipt _ _) n w g = absurd g.duties
    step-Waiting (send_release_receipt _ _) n w g = absurd g.duties
