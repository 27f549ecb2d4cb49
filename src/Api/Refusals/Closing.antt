-- ===== src/Api/Refusals/Closing.antt =====
-- Programs that accept a presentation only after its session is deleted, one rule for each part.
use mathlib.Core.Path.{subst}
use xmiete.Prelude.{
  ℕ, suc, ◌≡◌, refl, String, Bool, true, false, Option, none, some, ◌==◌, Bool-cases, inl, inr,
}
use xmiete.Prelude.Results.{Result, good, bad}
use xmiete.Calendar.{Time}
use xmiete.Models.{LifecycleState, HistoryEntry, Deposit}
use xmiete.Host.{Host, Codec, Outcome, ok, not_found, failed, panicked}
use xmiete.Repository
use xmiete.Issuance.Session.{SessionStore}
use xmiete.Verification
use xmiete.Verification.{VpSession}
use xmiete.Verification.Keyed.{IsKeyed, lookup-erase}
use xmiete.Api.Call.{perform, vp_get, vp_delete}
use xmiete.Api.Program.{
  Body, verified_claims, Program, Response, Fetched, found, missing, broken, reply, get_by_id,
  update_state, error_response, reject_if, require, pass, ask, time_now, fetch, update,
  fire_webhook,
}
use xmiete.Api.Run.{World, fetched, run}

-- The answer to a presentation that was accepted.
abbrev is_claims : {A : Type 0} → Body A → Bool
is_claims (verified_claims _) = true
is_claims _ = false

abbrev pub is_presented : {A : Type 0} → Outcome (Response A) → Bool
is_presented (ok r) = is_claims r.body
is_presented _ = false

module _ {A B S : Type 0} (json : Codec (Deposit A) B) (store : SessionStore S) (h : Host) where
  -- No session stands under the identifier.
  abbrev pub Gone : String → World A B S → Type 0
  Gone key w = Verification.get_by_id key w.wallets.vp_sessions ≡ none

  -- A program that accepts a presentation only if it has deleted the session.
  abbrev pub Closed : String → Outcome (Response A) × ℕ × World A B S → Type 0
  Closed key x = is_presented x.0 ≡ true → Gone key x.2

  pub record Closes (key : String) (p : Program A) : Type 0 where
    pub closes : (n : ℕ) (w : World A B S) → Closed key (run json store p h n w)

  module _ {key : String} where
    pub Closes-error :
        (status : ℕ) (message code : String)
        → Closes key (reply (error_response status message code))
    unfolding run
    Closes-error status message code = record { closes = λ n w e. cc }

    pub Closes-reject_if :
        (b : Bool) (status : ℕ) (message code : String) (m : Unit {0} → Program A)
        → Closes key (m tt)
        → Closes key (reject_if b status message code m)
    unfolding reject_if
    Closes-reject_if true status message code m c = Closes-error status message code
    Closes-reject_if false _ _ _ m c = c

    pub Closes-pass :
        {R : Type 0} (r : Result R) (status : ℕ) (code : String) (m : R → Program A)
        → ((x : R) → Closes key (m x))
        → Closes key (pass r status code m)
    unfolding pass
    Closes-pass (good x) _ _ m c = c x
    Closes-pass (bad e) status code m c = Closes-error status e code

    pub Closes-time_now :
        (m : Time → Program A) → ((t : Time) → Closes key (m t)) → Closes key (time_now m)
    unfolding time_now run
    Closes-time_now m c = record { closes = λ n w. (c (h.clock n)).closes (suc n) w }

    fetched-Closes :
        (f : Fetched A → Program A)
        → ((o : Fetched A) → Closes key (f o))
        → (id : String) → Closes key (get_by_id id f)
    unfolding run
    fetched-Closes f c id = record {
      closes = λ n w.
          let x = Repository.get_by_id json id h n w.db in
          (c (fetched x.0)).closes x.1 (record w { db = x.2 });
    }

    pub Closes-fetch :
        (id : String) (m : Deposit A → Program A)
        → ((d : Deposit A) → Closes key (m d))
        → Closes key (fetch id m)
    unfolding fetch
    Closes-fetch id m c =
        fetched-Closes _
          (elim [ found d ↦ c d | missing ↦ Closes-error _ _ _ | broken ↦ Closes-error _ _ _ ]) id

    updated-Closed :
        (f : Option (Deposit A) → Program A) (r : Outcome (Deposit A)) (n : ℕ) (w : World A B S)
        → ((o : Option (Deposit A)) → Closes key (f o))
        → Closed key (elim r [
          | panicked ↦ (panicked, n, w)
          | ok d ↦ run json store (f (some d)) h n w
          | not_found ↦ run json store (f none) h n w
          | failed ↦ run json store (f none) h n w
        ])
    updated-Closed f (ok d) n w c = (c (some d)).closes n w
    updated-Closed f not_found n w c = (c none).closes n w
    updated-Closed f failed n w c = (c none).closes n w
    updated-Closed f panicked n w c = λ e. cc

    updated-Closes :
        (id : String) (state : LifecycleState) (entry : HistoryEntry)
        (patch : Deposit A → Option (Deposit A)) (f : Option (Deposit A) → Program A)
        → ((o : Option (Deposit A)) → Closes key (f o))
        → Closes key (update_state id state entry patch f)
    unfolding run
    updated-Closes id state entry patch f c = record {
      closes = λ n w.
          let x = Repository.update_state json id state entry patch h n w.db in
          updated-Closed f x.0 x.1 (record w { db = x.2 }) c;
    }

    pub Closes-update :
        (id : String) (state : LifecycleState) (entry : HistoryEntry)
        (patch : Deposit A → Option (Deposit A)) (m : Deposit A → Program A)
        → ((d : Deposit A) → Closes key (m d))
        → Closes key (update id state entry patch m)
    unfolding update
    Closes-update id state entry patch m c =
        updated-Closes id state entry patch _ (elim [ none ↦ Closes-error _ _ _ | some d ↦ c d ])

    -- After the deletion, a webhook and the answer are left.
    pub Closes-delete :
        (id url : String) (d : Deposit A) (r : Response A)
        → id ≡ key
        → Closes key (ask (vp_delete id) λ _. fire_webhook url d λ _. reply r)
    unfolding ask fire_webhook run perform
    Closes-delete id url d r same =
        let gone : (w : World A B S)
            → Verification.get_by_id key (Verification.delete id w.wallets.vp_sessions) ≡ none =
          λ w.
            subst
              (λ k. Verification.get_by_id k (Verification.delete id w.wallets.vp_sessions) ≡ none)
              same (lookup-erase id w.wallets.vp_sessions) in
        elim (Bool-cases (url == "")) [
          | inl unset ↦ rw unset (record { closes = λ n w e. gone w })
          | inr set ↦ rw set (record { closes = λ n w e. gone w })
        ]

  -- The part before the session is known, from one state of the server.
  pub reject_if-Closed :
      (key : String) (n : ℕ) (w : World A B S) (b : Bool) (status : ℕ) (message code : String)
      (m : Unit {0} → Program A)
      → Closed key (run json store (m tt) h n w)
      → Closed key (run json store (reject_if b status message code m) h n w)
  unfolding reject_if run
  reject_if-Closed key n w true status message code m c = λ e. cc
  reject_if-Closed key n w false _ _ _ m c = c

  required-Closed :
      (key : String) (n : ℕ) (w : World A B S) (o : Option VpSession) (status : ℕ)
      (message code : String) (m : VpSession → Program A)
      → ((session : VpSession) → o ≡ some session → Closes key (m session))
      → Closed key (run json store (require o status message code m) h n w)
  unfolding require run
  required-Closed key n w none status message code m c = λ e. cc
  required-Closed key n w (some session) _ _ _ m c = (c session refl).closes n w

  pub vp_get-Closed :
      (key : String) (n : ℕ) (w : World A B S) (status : ℕ) (message code : String)
      (m : VpSession → Program A)
      → IsKeyed w.wallets.vp_sessions
      → ((session : VpSession) → session.id ≡ key → Closes key (m session))
      → Closed key (run json store (ask (vp_get key) λ o. require o status message code m) h n w)
  unfolding ask run perform
  vp_get-Closed key n w status message code m k c =
      required-Closed key n w (Verification.get_by_id key w.wallets.vp_sessions) status message code
        m λ session has. c session (k.keyed key session has)
