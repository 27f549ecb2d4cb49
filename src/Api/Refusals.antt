-- ===== src/Api/Refusals.antt =====
-- Requests that the handlers of server/internal/api/handlers.go refuse.
pub mod Pledged
pub mod Transitions
pub mod Sessions
pub mod Closing
pub mod Presented
use mathlib.Core.Path.{subst}
use xmiete.Prelude.{
  suc, ◌&&◌, eq_iff, ℕ, ◌≡◌, refl, sym, String, Bool, true, false, Option, none, some, ◌==◌, inl,
  inr,
}
use xmiete.StateMachine.Graph.{◌⟶◌, transition_cases}
use xmiete.Api.Deposits.{pledge, release, claim}
use xmiete.Api.Utility.{partial_release}
use xmiete.Api.Server.{
  Request, Server, handle, post_pledge, post_release, post_claim, post_dispute,
  post_dispute_resolve, post_partial_release,
}
use xmiete.Models.{
  LifecycleState, pledged, released, claimed, disputed, closed, partially_released, PledgeRequest,
  ClaimRequest, DisputeRequest, DisputeResolveRequest, PartialReleaseRequest, SettleRequest,
  Settlement, Deposit, SettleAcceptRequest, same_state, settle_proposed,
}
use xmiete.Amount.{Amount}
use xmiete.Host.{Host, Codec, Outcome, ok, not_found, failed, panicked}
use xmiete.Repository
use xmiete.Repository.{Db}
use xmiete.Repository.View.{view}
use xmiete.Repository.Outcomes.{get_by_id_keeps, get_by_id_reads}
use xmiete.Issuance.Session.{SessionStore}
use xmiete.Calendar.{Time}
use xmiete.Verification
use xmiete.Verification.{VpSession}
use xmiete.Api.Call.{vp_get, perform}
use xmiete.Api.Program.{
  Handler, branch, ask, time_now, Program, Fetched, found, missing, broken, reply, error_response,
  decode, reject_if, fetch, require, check_transition,
}
use xmiete.Api.Settlement.{settle, settle_accept, dispute, dispute_resolve, own_proposal}
use xmiete.Api.Run.{World, fetched, run}

not_own :
    {A : Type 0} (s : Settlement A) (party : String)
    → (s.last_proposed_by == party) ≡ false
    → s.last_proposed_by ≡ party
    → ⊥
not_own s party other own = cc ((eq_iff s.last_proposed_by party).1 own, other)

module _ {A B S : Type 0} (json : Codec (Deposit A) B) (store : SessionStore S) (h : Host)
    (w : World A B S) where
  -- A program that changes nothing.
  abbrev pub IsIdle : ℕ → Program A → Type 0
  IsIdle n p = (run json store p h n w).2 ≡ w

  pub reject_if-IsIdle :
      (n : ℕ) (b : Bool) (status : ℕ) (message code : String) (m : Unit {0} → Program A)
      → (b ≡ false → IsIdle n (m tt))
      → IsIdle n (reject_if b status message code m)
  unfolding run reject_if
  reject_if-IsIdle n true status message code m idle = refl
  reject_if-IsIdle n false status message code m idle = idle refl

  pub require-IsIdle :
      {R : Type 0} (n : ℕ) (o : Option R) (status : ℕ) (message code : String) (m : R → Program A)
      → ((r : R) → o ≡ some r → IsIdle n (m r))
      → IsIdle n (require o status message code m)
  unfolding run require
  require-IsIdle n none status message code m idle = refl
  require-IsIdle n (some r) status message code m idle = idle r refl

  answered-IsIdle :
      (id : String) (f : Fetched A → Program A) (x : Outcome (Deposit A) × ℕ × Db B)
      → x.2 ≡ w.db
      → ((k : ℕ) (o : Outcome (Deposit A)) → x.0 ≡ o → IsIdle k (f (fetched o)))
      → (run json store (f (fetched x.0)) h x.1 (record w { db = x.2 })).2 ≡ w
  answered-IsIdle id f (o, k, db) same idle = rw same (idle k o refl)

  pub fetch-IsIdle :
      (n : ℕ) (id : String) (m : Deposit A → Program A)
      → ((d : Deposit A) (k : ℕ) → view json w.db id ≡ some d → IsIdle k (m d))
      → IsIdle n (fetch id m)
  unfolding run fetch
  fetch-IsIdle n id m idle =
      answered-IsIdle id
        (elim [
          | found d ↦ m d
          | missing ↦ reply (error_response 404 "deposit not found" "NOT_FOUND")
          | broken ↦ reply (error_response 500 "failed to fetch deposit" "INTERNAL_ERROR")
        ])
        (Repository.get_by_id json id h n w.db) (get_by_id_keeps json h n w.db id)
        λ k. elim [
          | ok d ↦ λ e. idle d k (get_by_id_reads json h n w.db id d e)
          | not_found ↦ λ e. refl
          | failed ↦ λ e. refl
          | panicked ↦ λ e. refl
        ]

  pub decode-IsIdle :
      {R : Type 0} (n : ℕ) (body : Option R) (m : R → Program A)
      → ((r : R) → IsIdle n (m r))
      → IsIdle n (decode body m)
  unfolding run decode
  decode-IsIdle n none m idle = refl
  decode-IsIdle n (some r) m idle = idle r

  pub time_now-IsIdle :
      (n : ℕ) (m : Time → Program A) → ((t : Time) → IsIdle (suc n) (m t)) → IsIdle n (time_now m)
  unfolding run time_now
  time_now-IsIdle n m idle = idle (h.clock n)

  pub vp_get-IsIdle :
      (n : ℕ) (id : String) (m : Option VpSession → Program A)
      → IsIdle n (m (Verification.get_by_id id w.wallets.vp_sessions))
      → IsIdle n (ask (vp_get id) m)
  unfolding run ask perform
  vp_get-IsIdle n id m idle = idle

  pub branch-IsIdle :
      {R : Type 0} (n : ℕ) (b : Bool) (left right : Handler A R) (rest : R → Program A)
      → (b ≡ true → IsIdle n (left rest))
      → (b ≡ false → IsIdle n (right rest))
      → IsIdle n (branch b left right rest)
  unfolding branch
  branch-IsIdle n true left right rest l r = l refl
  branch-IsIdle n false left right rest l r = r refl

  pub check_transition-IsIdle :
      (n : ℕ) (from to : LifecycleState) (m : Unit {0} → Program A)
      → ¬ (from ⟶ to)
      → IsIdle n (check_transition from to m)
  unfolding run check_transition
  check_transition-IsIdle n from to m absent = elim (transition_cases from to) [
    | inl (edge, e) ↦ absurd (absent edge)
    | inr (no_edge, e) ↦ rw (e, check_transition) refl
  ]

  module _ ⦃F : Amount A⦄ where
    -- A party that accepts a proposal of its own changes nothing: the tables and the sessions stay,
    -- and nothing is sent.
    pub accept_own_proposal :
        (n : ℕ) (url id : String) (req : SettleAcceptRequest) (d : Deposit A) (s : Settlement A)
        → view json w.db id ≡ some d
        → d.settlement ≡ some s
        → s.last_proposed_by ≡ req.accepted_by
        → (run json store (settle_accept url id (some req)) h n w).2 ≡ w
    unfolding settle_accept decode
    accept_own_proposal n url id req d s stored has own = reject_if-IsIdle n _ _ _ _ _ λ _.
        fetch-IsIdle n _ _ λ d' k v. reject_if-IsIdle k _ _ _ _ _ λ _.
          require-IsIdle k _ _ _ _ _ λ s' has'.
            reject_if-IsIdle k _ _ _ _ _
              λ other. absurd (not_own s' req.accepted_by other (cc (own, has, has', stored, v)))

    own_counter :
        (id : String) (s : Settlement A) (d d' : Deposit A) (party : String)
        → view json w.db id ≡ some d
        → view json w.db id ≡ some d'
        → d.deposit.lifecycle_state ≡ settle_proposed
        → d.settlement ≡ some s
        → s.last_proposed_by ≡ party
        → (same_state d'.deposit.lifecycle_state settle_proposed
            && own_proposal party d'.settlement)
          ≡ false
        → ⊥
    unfolding same_state
    own_counter id s d d' party stored v proposed has own other =
        let same : d ≡ d' = cc (stored, v) in
        let counters : same_state d.deposit.lifecycle_state settle_proposed ≡ true =
          rw proposed refl in
        let mine : own_proposal party d.settlement ≡ true =
          rw has ((eq_iff s.last_proposed_by party).1 own) in
        let refused : (same_state d.deposit.lifecycle_state settle_proposed
              && own_proposal party d.settlement)
            ≡ false =
          subst
            (λ (x : Deposit A).
              (same_state x.deposit.lifecycle_state settle_proposed
                && own_proposal party x.settlement)
              ≡ false)
            (sym same) other in
        cc (refused, counters, mine)

    -- A party that answers a proposal of its own by another one changes nothing either.
    pub counter_own_proposal :
        (n : ℕ) (url id : String) (req : SettleRequest A) (d : Deposit A) (s : Settlement A)
        → view json w.db id ≡ some d
        → d.deposit.lifecycle_state ≡ settle_proposed
        → d.settlement ≡ some s
        → s.last_proposed_by ≡ req.initiated_by
        → (run json store (settle url id (some req)) h n w).2 ≡ w
    unfolding settle decode same_state
    counter_own_proposal n url id req d s stored proposed has own =
        reject_if-IsIdle n _ _ _ _ _ λ _. reject_if-IsIdle n _ _ _ _ _ λ _.
          reject_if-IsIdle n _ _ _ _ _ λ _. fetch-IsIdle n _ _ λ d' k v.
            reject_if-IsIdle k _ _ _ _ _ λ _. reject_if-IsIdle k _ _ _ _ _ λ other.
              absurd (own_counter id s d d' req.initiated_by stored v proposed has own other)
