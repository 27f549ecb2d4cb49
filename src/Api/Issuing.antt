-- ===== src/Api/Issuing.antt =====
-- How a handler comes to hand out a credential: by a token that the session store accepts.
pub mod Once
use mathlib.Core.Path.{subst}
use xmiete.Prelude.{
  ℕ, suc, String, Bool, true, false, Option, none, some, ◌≡◌, refl, sym, ap, ◌∙◌, arith,
  if◌then◌else◌, Bool-cases, inl, inr,
}
use xmiete.Calendar.{Time}
use xmiete.Models.{Deposit}
use xmiete.Host.{Host, Codec, Outcome, ok, not_found, failed, panicked, Io, is_ok}
use xmiete.Repository
use xmiete.Issuance.Session.{Session, SessionStore}
use xmiete.Issuance.Contract.{Contract}
use xmiete.Api.Call.{
  Call, Answer, answered, perform, uuid, salts, allocate_index, create_session, session_by_id,
  session_by_token, exchange_code, consume_token, credential_status, revoked_indices, vp_create,
  vp_get, vp_delete,
}
use xmiete.Api.Program.{
  Body, credential, Program, Response, reply, panic, now, call, create, get_by_id, update_state,
  revoke_by_deposit_id, post_webhook, send_receipt, send_release_receipt, Fetched, found, missing,
  broken, error_response, decode, require, reject_if, time_now, ask, load,
}
use xmiete.Api.Run.{World, fetched, run}

abbrev pub is_credential : {A : Type 0} → Body A → Bool
is_credential (credential _) = true
is_credential _ = false

-- The answer hands out a credential.
abbrev pub is_issued : {A : Type 0} → Outcome (Response A) → Bool
is_issued (ok r) = is_credential r.body
is_issued _ = false

no_credential : {A : Type 0} (b : Body A) → is_credential b ≡ false → is_credential b ≡ true → ⊥
no_credential b without with_it = ground arith

pub answered-some : {R : Type 0} (o : Outcome R) → is_ok o ≡ true → (r : R) × (answered o ≡ some r)
answered-some (ok r) e = (r, refl)
answered-some not_found e = ground arith
answered-some failed e = ground arith
answered-some panicked e = ground arith

pub answered-none : {R : Type 0} (o : Outcome R) → is_ok o ≡ false → answered o ≡ none
answered-none (ok r) e = ground arith
answered-none not_found e = refl
answered-none failed e = refl
answered-none panicked e = refl

module _ {A : Type 0} (bearer : String) where
  -- A program that only reads until the token is accepted, and that hands out no credential unless
  -- it is; then it replies.
  abbrev Duties : Program A → Type 0
  Duties (reply r) = is_credential r.body ≡ false
  Duties panic = Unit
  Duties (now f) = (t : Time) → Duties (f t)
  Duties (call uuid f) = (a : String) → Duties (f a)
  Duties (call salts f) = (a : Answer salts) → Duties (f a)
  Duties (call (session_by_token t) f) = (a : Option Session) → Duties (f a)
  Duties (call (consume_token t id) f) =
      (t ≡ bearer)
      × ((r : Response A) × (f none ≡ reply r) × (is_credential r.body ≡ false))
      × ((session : Session) → (r : Response A) × (f (some session) ≡ reply r))
  Duties (call _ f) = ⊥
  Duties (get_by_id id f) =
      Duties (f missing) × Duties (f broken) × ((d : Deposit A) → Duties (f (found d)))
  Duties _ = ⊥

  pub fetched-Duties :
      (id : String) (f : Fetched A → Program A)
      → Duties (get_by_id id f)
      → (o : Outcome (Deposit A)) → Duties (f (fetched o))
  fetched-Duties id f ds (ok d) = ds.2 d
  fetched-Duties id f ds not_found = ds.0
  fetched-Duties id f ds failed = ds.1
  fetched-Duties id f ds panicked = ds.1

  pub record Gated (p : Program A) : Type 0 where
    pub duties : Duties p

  module _ {B S : Type 0} (json : Codec (Deposit A) B) (store : SessionStore S)
      (contract : Contract store) where
    -- The store does not accept the token any more.
    abbrev pub Spent : S → Type 0
    Spent s =
        (id : String) (h : Host) (n : ℕ) → is_ok (store.consume_by_token bearer id h n s).0 ≡ false

    module _ (h : Host) where
      pub Spent-refuses :
          (p : Program A)
          → Gated p
          → (n : ℕ) (w : World A B S) → Spent w.wallets.sessions
          → is_issued (run json store p h n w).0 ≡ false
      unfolding run perform
      Spent-refuses (reply r) g n w spent = g.duties
      Spent-refuses panic g n w spent = refl
      Spent-refuses (now f) g n w spent =
          Spent-refuses (f (h.clock n)) (record { duties = g.duties (h.clock n) }) (suc n) w spent
      Spent-refuses (call uuid f) g n w spent =
          Spent-refuses (f (h.uuid n)) (record { duties = g.duties (h.uuid n) }) (suc n) _ spent
      Spent-refuses (call salts f) g n w spent =
          Spent-refuses (f _) (record { duties = g.duties _ }) _ _ spent
      Spent-refuses (call (session_by_token t) f) g n w spent =
          let x = store.get_by_token t h n w.wallets.sessions in
          Spent-refuses (f (answered x.0)) (record { duties = g.duties (answered x.0) }) x.1 _
            (subst Spent (sym (contract.reads t h n w.wallets.sessions)) spent)
      Spent-refuses (call (consume_token t id) f) g n w spent =
          let (same, (r, replies, none_given), _) = g.duties in
          let x = store.consume_by_token t id h n w.wallets.sessions in
          let refused = answered-none x.0 (
            subst (λ b. is_ok (store.consume_by_token b id h n w.wallets.sessions).0 ≡ false)
              (sym same) (spent id h n)) in
          let after_call = record w { wallets = record w.wallets { sessions = x.2 } } in
          let program : f (answered x.0) ≡ reply r = ap f refused ∙ replies in
          subst (λ p. is_issued (run json store p h x.1 after_call).0 ≡ false) (sym program)
            none_given
      Spent-refuses (get_by_id id f) g n w spent =
          let x = Repository.get_by_id json id h n w.db in
          Spent-refuses (f (fetched x.0)) (record { duties = fetched-Duties id f g.duties x.0 }) x.1
            _ spent
      Spent-refuses (call allocate_index f) g n w spent = absurd g.duties
      Spent-refuses (call (create_session _ _ _) f) g n w spent = absurd g.duties
      Spent-refuses (call (session_by_id _) f) g n w spent = absurd g.duties
      Spent-refuses (call (exchange_code _) f) g n w spent = absurd g.duties
      Spent-refuses (call (credential_status _) f) g n w spent = absurd g.duties
      Spent-refuses (call revoked_indices f) g n w spent = absurd g.duties
      Spent-refuses (call (vp_create _) f) g n w spent = absurd g.duties
      Spent-refuses (call (vp_get _) f) g n w spent = absurd g.duties
      Spent-refuses (call (vp_delete _) f) g n w spent = absurd g.duties
      Spent-refuses (create _ _) g n w spent = absurd g.duties
      Spent-refuses (update_state _ _ _ _ _) g n w spent = absurd g.duties
      Spent-refuses (revoke_by_deposit_id _ _) g n w spent = absurd g.duties
      Spent-refuses (post_webhook _ _) g n w spent = absurd g.duties
      Spent-refuses (send_receipt _ _) g n w spent = absurd g.duties
      Spent-refuses (send_release_receipt _ _) g n w spent = absurd g.duties

      -- A program that hands out a credential has spent the token.
      pub issues-Spent :
          (p : Program A)
          → Gated p
          → (n : ℕ) (w : World A B S) → is_issued (run json store p h n w).0 ≡ true
          → Spent (run json store p h n w).2.wallets.sessions
      unfolding run perform
      issues-Spent (reply r) g n w given = absurd (no_credential r.body g.duties given)
      issues-Spent panic g n w given = ground arith
      issues-Spent (now f) g n w given =
          issues-Spent (f (h.clock n)) (record { duties = g.duties (h.clock n) }) (suc n) w given
      issues-Spent (call uuid f) g n w given =
          issues-Spent (f (h.uuid n)) (record { duties = g.duties (h.uuid n) }) (suc n) _ given
      issues-Spent (call salts f) g n w given =
          issues-Spent (f _) (record { duties = g.duties _ }) _ _ given
      issues-Spent (call (session_by_token t) f) g n w given =
          let x = store.get_by_token t h n w.wallets.sessions in
          issues-Spent (f (answered x.0)) (record { duties = g.duties (answered x.0) }) x.1 _ given
      issues-Spent (get_by_id id f) g n w given =
          let x = Repository.get_by_id json id h n w.db in
          issues-Spent (f (fetched x.0)) (record { duties = fetched-Duties id f g.duties x.0 }) x.1
            _ given
      issues-Spent (call (consume_token t id) f) g n w given =
          let (same, (r, replies, none_given), then_replies) = g.duties in
          let x = store.consume_by_token t id h n w.wallets.sessions in
          let after_call = record w { wallets = record w.wallets { sessions = x.2 } } in
          elim (Bool-cases (is_ok x.0)) [
            | inr refused ↦
                let program : f (answered x.0) ≡ reply r =
                  ap f (answered-none x.0 refused) ∙ replies in
                absurd (
                  no_credential r.body none_given (
                    subst (λ p. is_issued (run json store p h x.1 after_call).0 ≡ true) program
                      given))
            | inl accepted ↦
                let (session, e) = answered-some x.0 accepted in
                let (reply_to, then_) = then_replies session in
                let program : f (answered x.0) ≡ reply reply_to = ap f e ∙ then_ in
                let spent : Spent x.2 = λ other_id h' m.
                  subst (λ b. is_ok (store.consume_by_token b other_id h' m x.2).0 ≡ false) same
                    (contract.once t id h n w.wallets.sessions accepted other_id h' m) in
                subst (λ p. Spent (run json store p h x.1 after_call).2.wallets.sessions)
                  (sym program) spent
          ]
      issues-Spent (call allocate_index f) g n w given = absurd g.duties
      issues-Spent (call (create_session _ _ _) f) g n w given = absurd g.duties
      issues-Spent (call (session_by_id _) f) g n w given = absurd g.duties
      issues-Spent (call (exchange_code _) f) g n w given = absurd g.duties
      issues-Spent (call (credential_status _) f) g n w given = absurd g.duties
      issues-Spent (call revoked_indices f) g n w given = absurd g.duties
      issues-Spent (call (vp_create _) f) g n w given = absurd g.duties
      issues-Spent (call (vp_get _) f) g n w given = absurd g.duties
      issues-Spent (call (vp_delete _) f) g n w given = absurd g.duties
      issues-Spent (create _ _) g n w given = absurd g.duties
      issues-Spent (update_state _ _ _ _ _) g n w given = absurd g.duties
      issues-Spent (revoke_by_deposit_id _ _) g n w given = absurd g.duties
      issues-Spent (post_webhook _ _) g n w given = absurd g.duties
      issues-Spent (send_receipt _ _) g n w given = absurd g.duties
      issues-Spent (send_release_receipt _ _) g n w given = absurd g.duties
