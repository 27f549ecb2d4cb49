-- ===== src/Api/Refusals/Transitions.antt =====
-- Requests for a transition that the server does not have: all the handlers of
-- server/internal/api/handlers.go and verifier_handlers.go that change a stored deposit.
use mathlib.Core.Path.{subst}
use xmiete.Prelude.{
  ℕ, suc, ◌≡◌, refl, sym, String, Bool, true, false, not, ◌&&◌, ◌||◌, Option, some, inl, inr,
  Bool-cases, ap, ◌∙◌,
}
use xmiete.Calendar.{Time}
use xmiete.Amount.{Amount}
use xmiete.StateMachine.Graph.{◌⟶◌, accept, settle_rest, close_rest}
use xmiete.Models.{
  LifecycleState, identified, pledged, funded, released, claimed, settle_proposed, disputed, closed,
  partially_released, same_state, same_state-eq, IdentityUpdateRequest, PledgeRequest, ClaimRequest,
  SettleRequest, SettleAcceptRequest, DisputeRequest, DisputeResolveRequest, PartialReleaseRequest,
  UtilitySettleRequest, Settlement, Deposit,
}
use xmiete.Host.{Host, Codec}
use xmiete.Repository.View.{view}
use xmiete.Issuance.Session.{SessionStore}
use xmiete.Api.Program.{Program, Response, reply, fetch, check_transition}
use xmiete.Api.Deposits.{update_identity, pledge, release, claim}
use xmiete.Api.Settlement.{origin, settle, settle_accept, dispute, dispute_resolve}
use xmiete.Api.Utility.{partial_release, utility_settle}
use xmiete.Api.Verifier.{VpResponse}
use xmiete.Api.Run.{World, run}
use xmiete.Api.Server.{
  Request, Server, handle, patch_identity, post_pledge, post_release, post_claim, post_settle,
  post_settle_accept, post_dispute, post_dispute_resolve, post_partial_release, post_utility_settle,
  post_vp_response,
}
use xmiete.Api.Lifecycle.Deposits.{identity_state}
use xmiete.Api.Lifecycle.Settlement.{countered, proposed_state}
use xmiete.Api.Lifecycle.Utility.{reserved_state}
use xmiete.Api.Refusals.{
  IsIdle, reject_if-IsIdle, require-IsIdle, decode-IsIdle, fetch-IsIdle, time_now-IsIdle,
  branch-IsIdle, check_transition-IsIdle,
}
use xmiete.Api.Refusals.Pledged.{presenting, refuses_unpledged}

-- The requests that update a stored deposit, each with the deposit and the state that it records; the
-- settlement of utility costs records one of two, and a presentation is for the state PLEDGED.
pub data Asks {A : Type 0} : Request A → String → LifecycleState → Type 0 where
  identifying :
      {id : String} (body : Option IdentityUpdateRequest)
      → Asks (patch_identity id body) id identified
  pledging : {id : String} (body : Option PledgeRequest) → Asks (post_pledge id body) id pledged
  releasing : {id : String} → Asks (post_release id) id released
  claiming : {id : String} (body : Option (ClaimRequest A)) → Asks (post_claim id body) id claimed
  reserving :
      {id : String} (body : Option (PartialReleaseRequest A))
      → Asks (post_partial_release id body) id partially_released
  balancing :
      {id : String} (body : Option (UtilitySettleRequest A))
      → Asks (post_utility_settle id body) id closed
  charging :
      {id : String} (body : Option (UtilitySettleRequest A))
      → Asks (post_utility_settle id body) id settle_proposed
  proposing :
      {id : String} (body : Option (SettleRequest A))
      → Asks (post_settle id body) id settle_proposed
  accepting :
      {id : String} (body : Option SettleAcceptRequest)
      → Asks (post_settle_accept id body) id closed
  disputing : {id : String} (body : Option DisputeRequest) → Asks (post_dispute id body) id disputed
  resolving :
      {id : String} (body : Option (DisputeResolveRequest A))
      → Asks (post_dispute_resolve id body) id closed
  showing : {id : String} (body : Option VpResponse) → Asks (post_vp_response id body) id pledged

-- The requests that are recorded without a transition: a counter-proposal, and a presentation to a
-- deposit that is pledged.
pub data KeepsState {A : Type 0} : Request A → LifecycleState → Type 0 where
  counters :
      {id : String} {s : LifecycleState} (body : Option (SettleRequest A))
      → s ≡ settle_proposed
      → KeepsState (post_settle id body) s
  presents :
      {id : String} {s : LifecycleState} (body : Option VpResponse)
      → s ≡ pledged
      → KeepsState (post_vp_response id body) s

module _ {A B S : Type 0} (json : Codec (Deposit A) B) (store : SessionStore S) (h : Host)
    (w : World A B S) where
  -- The document that a handler fetches is the stored one.
  fetched_state :
      (id : String) {d d' : Deposit A}
      → view json w.db id ≡ some d
      → view json w.db id ≡ some d'
      → d'.deposit.lifecycle_state ≡ d.deposit.lifecycle_state
  fetched_state id {d = d} {d' = d'} stored v =
      let same : d' ≡ d = cc (stored, v) in ap (λ (x : Deposit A). x.deposit.lifecycle_state) same

  absent_to : {s t u : LifecycleState} → t ≡ u → ¬ (s ⟶ u) → ¬ (s ⟶ t)
  absent_to {s} e absent edge = absent (subst (λ x. s ⟶ x) e edge)

  absent_from : {s t u : LifecycleState} → s ≡ t → ¬ (t ⟶ u) → ¬ (s ⟶ u)
  absent_from {u = u} e absent edge = absent (subst (λ x. x ⟶ u) e edge)

  reply-IsIdle : (n : ℕ) (r : Response A) → IsIdle json store h w n (reply r)
  unfolding run
  reply-IsIdle n r = refl

  unpledged_of : (s : LifecycleState) → ¬ (s ≡ pledged) → same_state s pledged ≡ false
  unpledged_of s other = elim (Bool-cases (same_state s pledged)) [
    | inl is_pledged ↦ absurd (other (same_state-eq s pledged is_pledged))
    | inr unpledged ↦ unpledged
  ]

  checked-IsIdle :
      (n : ℕ) (id : String) (to : LifecycleState) (d : Deposit A)
      (m : Deposit A → Unit {0} → Program A)
      → view json w.db id ≡ some d
      → ¬ (d.deposit.lifecycle_state ⟶ to)
      → IsIdle json store h w n
          (fetch id λ d'. check_transition d'.deposit.lifecycle_state to (m d'))
  checked-IsIdle n id to d m stored absent = fetch-IsIdle json store h w n _ _ λ d' k v.
      check_transition-IsIdle json store h w k _ _ _
        (absent_from (fetched_state id stored v) absent)

  module _ ⦃F : Amount A⦄ where
    first_origin-IsIdle :
        (n : ℕ) (first : Bool) (party : String) (t : Time) (s : Option (Settlement A))
        (m : String × Time → Program A)
        → first ≡ true
        → ((begun : String × Time) → IsIdle json store h w n (m begun))
        → IsIdle json store h w n (origin first party t s m)
    unfolding origin
    first_origin-IsIdle n true party t s m e idle = idle (party, t)
    first_origin-IsIdle n false party t s m e idle = cc

    not_identified-IsIdle :
        (n : ℕ) (url id : String) (body : Option IdentityUpdateRequest) (d : Deposit A)
        → view json w.db id ≡ some d
        → ¬ (d.deposit.lifecycle_state ⟶ identified)
        → IsIdle json store h w n (update_identity url id body)
    unfolding update_identity
    not_identified-IsIdle n url id body d stored absent =
        decode-IsIdle json store h w n body _ λ req.
          reject_if-IsIdle json store h w n _ _ _ _ _ λ _.
            fetch-IsIdle json store h w n _ _ λ d' k v.
              branch-IsIdle json store h w k _ _ _ _ (λ _. reply-IsIdle k _)
                λ verified. check_transition-IsIdle json store h w k _ _ _ (
                  absent_to (identity_state req.eid_status verified)
                    (absent_from (fetched_state id stored v) absent))

    -- A proposal that is not refused by its state, and that is no counter-proposal, is a first one.
    first_of :
        (d : Deposit A)
        → (not (
              same_state d.deposit.lifecycle_state pledged
              || same_state d.deposit.lifecycle_state funded)
            && not (same_state d.deposit.lifecycle_state settle_proposed))
          ≡ false
        → ¬ (d.deposit.lifecycle_state ≡ settle_proposed)
        → (same_state d.deposit.lifecycle_state pledged
            || same_state d.deposit.lifecycle_state funded)
          ≡ true
    first_of d allowed other =
        elim (Bool-cases (
          same_state d.deposit.lifecycle_state pledged
          || same_state d.deposit.lifecycle_state funded)) [
            | inl first ↦ first
            | inr late ↦ absurd (other (countered d allowed late))
          ]

    not_proposed-IsIdle :
        (n : ℕ) (url id : String) (body : Option (SettleRequest A)) (d : Deposit A)
        → view json w.db id ≡ some d
        → ¬ (d.deposit.lifecycle_state ⟶ settle_proposed)
        → ¬ (d.deposit.lifecycle_state ≡ settle_proposed)
        → IsIdle json store h w n (settle url id body)
    unfolding settle
    not_proposed-IsIdle n url id body d stored absent other =
        decode-IsIdle json store h w n body _ λ req.
          reject_if-IsIdle json store h w n _ _ _ _ _ λ _.
            reject_if-IsIdle json store h w n _ _ _ _ _ λ _.
              reject_if-IsIdle json store h w n _ _ _ _ _ λ _.
                fetch-IsIdle json store h w n _ _ λ d' k v.
                  let same = fetched_state id stored v in
                  reject_if-IsIdle json store h w k _ _ _ _ _ λ allowed.
                    let first = first_of d' allowed (λ e. other (sym same ∙ e)) in
                    reject_if-IsIdle json store h w k _ _ _ _ _ λ _.
                      time_now-IsIdle json store h w k _ λ t.
                        first_origin-IsIdle (suc k) _ _ _ _ _ first λ begun.
                          branch-IsIdle json store h w (suc k) _ _ _ _
                            (λ _.
                              check_transition-IsIdle json store h w (suc k) _ _ _
                                (absent_from same absent))
                            λ late. cc (first, late)

    not_accepted-IsIdle :
        (n : ℕ) (url id : String) (body : Option SettleAcceptRequest) (d : Deposit A)
        → view json w.db id ≡ some d
        → ¬ (d.deposit.lifecycle_state ⟶ closed)
        → IsIdle json store h w n (settle_accept url id body)
    unfolding settle_accept
    not_accepted-IsIdle n url id body d stored absent = decode-IsIdle json store h w n body _ λ req.
        reject_if-IsIdle json store h w n _ _ _ _ _ λ _. fetch-IsIdle json store h w n _ _ λ d' k v.
          reject_if-IsIdle json store h w k _ _ _ _ _ λ proposed.
            let same = sym (fetched_state id stored v) ∙ proposed_state d' proposed in
            absurd (absent_from (sym same) absent accept)

    unreserved-IsIdle :
        (n : ℕ) (url id : String) (body : Option (UtilitySettleRequest A)) (d : Deposit A)
        → view json w.db id ≡ some d
        → ¬ (d.deposit.lifecycle_state ≡ partially_released)
        → IsIdle json store h w n (utility_settle url id body)
    unfolding utility_settle
    unreserved-IsIdle n url id body d stored other = decode-IsIdle json store h w n body _ λ req.
        reject_if-IsIdle json store h w n _ _ _ _ _ λ _. fetch-IsIdle json store h w n _ _ λ d' k v.
          reject_if-IsIdle json store h w k _ _ _ _ _ λ reserved.
            absurd (other (sym (fetched_state id stored v) ∙ reserved_state d' reserved))

    module _ {K P : Type 0} (server : Server A K P) where
      -- A request to one of the eleven routes that update a stored deposit changes nothing where the
      -- server has no transition from the stored state to the state that the route records, unless it
      -- is a counter-proposal in SETTLE_PROPOSED or a presentation in PLEDGED, which keep the state.
      -- The tables and the sessions stay, and nothing is sent.
      pub refuses_transition :
          (n : ℕ) (q : Request A) (id : String) (to : LifecycleState) (d : Deposit A)
          → Asks q id to
          → view json w.db id ≡ some d
          → ¬ (d.deposit.lifecycle_state ⟶ to)
          → ¬ KeepsState q d.deposit.lifecycle_state
          → (run json store (handle server q) h n w).2 ≡ w
      unfolding handle pledge release claim partial_release dispute dispute_resolve
      refuses_transition n _ id _ d (identifying body) stored absent moves =
          not_identified-IsIdle n server.webhook_url id body d stored absent
      refuses_transition n _ id _ d (pledging body) stored absent moves =
          decode-IsIdle json store h w n body _ λ req.
            reject_if-IsIdle json store h w n _ _ _ _ _
              λ _. checked-IsIdle n id pledged d _ stored absent
      refuses_transition n _ id _ d releasing stored absent moves =
          checked-IsIdle n id released d _ stored absent
      refuses_transition n _ id _ d (claiming body) stored absent moves =
          decode-IsIdle json store h w n body _ λ req.
            reject_if-IsIdle json store h w n _ _ _ _ _
              λ _. checked-IsIdle n id claimed d _ stored absent
      refuses_transition n _ id _ d (disputing body) stored absent moves =
          decode-IsIdle json store h w n body _ λ req.
            reject_if-IsIdle json store h w n _ _ _ _ _ λ _.
              reject_if-IsIdle json store h w n _ _ _ _ _
                λ _. checked-IsIdle n id disputed d _ stored absent
      refuses_transition n _ id _ d (resolving body) stored absent moves =
          decode-IsIdle json store h w n body _ λ req.
            reject_if-IsIdle json store h w n _ _ _ _ _
              λ _. checked-IsIdle n id closed d _ stored absent
      refuses_transition n _ id _ d (reserving body) stored absent moves =
          decode-IsIdle json store h w n body _ λ req.
            reject_if-IsIdle json store h w n _ _ _ _ _ λ _.
              reject_if-IsIdle json store h w n _ _ _ _ _ λ _.
                require-IsIdle json store h w n _ _ _ _ _
                  λ end e. checked-IsIdle n id partially_released d _ stored absent
      refuses_transition n _ id _ d (balancing body) stored absent moves =
          unreserved-IsIdle n server.webhook_url id body d stored
            λ e. absent_from (sym e) absent close_rest
      refuses_transition n _ id _ d (charging body) stored absent moves =
          unreserved-IsIdle n server.webhook_url id body d stored
            λ e. absent_from (sym e) absent settle_rest
      refuses_transition n _ id _ d (proposing body) stored absent moves =
          not_proposed-IsIdle n server.webhook_url id body d stored absent
            λ e. moves (counters body e)
      refuses_transition n _ id _ d (accepting body) stored absent moves =
          not_accepted-IsIdle n server.webhook_url id body d stored absent
      refuses_transition n _ id _ d (showing body) stored absent moves =
          refuses_unpledged json store h w id d stored
            (unpledged_of d.deposit.lifecycle_state λ e. moves (presents body e)) server _
            (presenting body) n
