-- ===== src/Api/Interleaving/Rush/Pool.antt =====
-- The pool of requests for a credential by one bearer token, whichever of them makes the next step.
use xmiete.Prelude.{
  ℕ, zero, suc, ◌≤◌, ◌≡◌, inl, inr, refl, String, Option, none, List, [], ◌∷◌, All, map, arith,
  if◌then◌else◌, Option-cases,
}
use xmiete.Prelude.Split.{after_prefix}
use xmiete.Amount.{Amount}
use xmiete.Models.{Deposit}
use xmiete.Host.{Host, Codec}
use xmiete.Issuance.Session.{SessionStore}
use xmiete.Issuance.Contract.{Contract}
use xmiete.Api.Program.{Program}
use xmiete.Api.Run.{World}
use xmiete.Api.Issuer.{Issuer, CredentialRequest, issue}
use xmiete.Api.Server.{Server, handle, post_credential}
use xmiete.Api.Issuing.{is_issued, Gated}
use xmiete.Api.Issuing.Once.{issue-Gated, Gated-require}
use xmiete.Api.Interleaving.{Flight, flying, landed, step, advance, Busy, proceed, turn, turns}
use xmiete.Api.Interleaving.Rush.{Accepted, Waiting, OneAccepted, Spent, Moves, step-Waiting}

-- How many requests were answered by a credential.
unfoldable pub issued_count : {A : Type 0} → List (Flight A) → ℕ
issued_count [] = 0
issued_count (flying p ∷ ps) = issued_count ps
issued_count (landed o ∷ ps) = let rest = issued_count ps in if is_issued o then suc rest else rest

module _ {A : Type 0} (bearer : String) where
  Waiting-none_issued : (ps : List (Flight A)) → All (Waiting bearer) ps → issued_count ps ≡ 0
  unfolding issued_count
  Waiting-none_issued [] all = refl
  Waiting-none_issued (flying p ∷ ps) all = Waiting-none_issued ps all.1
  Waiting-none_issued (landed o ∷ ps) all = rw all.0 (Waiting-none_issued ps all.1)

  OneAccepted-one_issued : (ps : List (Flight A)) → OneAccepted bearer ps → issued_count ps ≤ 1
  unfolding issued_count
  OneAccepted-one_issued [] none_accepted = absurd none_accepted
  OneAccepted-one_issued (flying p ∷ ps) (inl (_, all)) =
      let none_issued = Waiting-none_issued ps all in ground arith
  OneAccepted-one_issued (landed o ∷ ps) (inl (_, all)) =
      let none_issued = Waiting-none_issued ps all in ground arith
  OneAccepted-one_issued (flying p ∷ ps) (inr (_, one)) = OneAccepted-one_issued ps one
  OneAccepted-one_issued (landed o ∷ ps) (inr (refused, one)) =
      rw refused (OneAccepted-one_issued ps one)

  module _ {B S : Type 0} (json : Codec (Deposit A) B) (store : SessionStore S)
      (contract : Contract store) (h : Host) where
    advance-Waiting :
        (i : ℕ) (ps : List (Flight A)) (n : ℕ) (w : World A B S)
        → All (Waiting bearer) ps
        → (let x = advance json store h i ps n w in
            Moves bearer store w.wallets.sessions x.2.wallets.sessions
              (All (Waiting bearer) x.0)
              (OneAccepted bearer x.0))
    unfolding advance
    advance-Waiting i [] n w all = inl (tt, λ spent. spent)
    advance-Waiting zero (landed o ∷ ps) n w all = inl (all, λ spent. spent)
    advance-Waiting zero (flying p ∷ ps) n w all =
        elim (step-Waiting bearer store json contract h p n w all.0) [
          | inl (waits, keeps) ↦ inl ((waits, all.1), keeps)
          | inr (fresh, wins, spent) ↦ inr (fresh, inl (wins, all.1), spent)
        ]
    advance-Waiting (suc i) (p ∷ ps) n w all = elim (advance-Waiting i ps n w all.1) [
      | inl (waits, keeps) ↦ inl ((all.0, waits), keeps)
      | inr (fresh, wins, spent) ↦ inr (fresh, inr (all.0, wins), spent)
    ]

    -- One request has an accepted token, and the store does not accept it again.
    abbrev Settled : List (Flight A) × ℕ × World A B S → Type 0
    Settled x = OneAccepted bearer x.0 × Spent bearer store x.2.wallets.sessions

    step-Accepted :
        (p : Program A) (ps : List (Flight A)) (n : ℕ) (w : World A B S)
        → Accepted (flying p)
        → All (Waiting bearer) ps
        → Spent bearer store w.wallets.sessions
        → (let (p', n', w') = step json store h p n w in Settled (p' ∷ ps, n', w'))
    unfolding step
    step-Accepted p ps n w (r, e) all spent = rw e (inl (tt, all), spent)

    advance-Settled :
        (i : ℕ) (ps : List (Flight A)) (n : ℕ) (w : World A B S)
        → Settled (ps, n, w)
        → Settled (advance json store h i ps n w)
    unfolding advance
    advance-Settled i [] n w (none_accepted, spent) = absurd none_accepted
    advance-Settled zero (landed o ∷ ps) n w settled = settled
    advance-Settled zero (flying p ∷ ps) n w (inl (wins, all), spent) =
        step-Accepted p ps n w wins all spent
    advance-Settled zero (flying p ∷ ps) n w (inr (waits, one), spent) =
        elim (step-Waiting bearer store json contract h p n w waits) [
          | inl (still, keeps) ↦ (inr (still, one), keeps spent)
          | inr (fresh, _, _) ↦ absurd (fresh spent)
        ]
    advance-Settled (suc i) (p ∷ ps) n w (inl (wins, all), spent) =
        elim (advance-Waiting i ps n w all) [
          | inl (still, keeps) ↦ (inl (wins, still), keeps spent)
          | inr (fresh, _, _) ↦ absurd (fresh spent)
        ]
    advance-Settled (suc i) (p ∷ ps) n w (inr (waits, one), spent) =
        let (one', spent') = advance-Settled i ps n w (one, spent) in (inr (waits, one'), spent')

    module _ {K P : Type 0} ⦃F : Amount A⦄ (s : Server A K P) where
      Settled-turns :
          (is : List ℕ) (b : Busy A B S)
          → Settled (b.pool, b.calls, b.world)
          → issued_count (turns json store h s (map proceed is) b).pool ≤ 1
      unfolding turns turn
      Settled-turns [] b settled = OneAccepted-one_issued b.pool settled.0
      Settled-turns (i ∷ is) b settled =
          Settled-turns is (turn json store h s (proceed i) b)
            (advance-Settled i b.pool b.calls b.world settled)

      Waiting-turns :
          (is : List ℕ) (b : Busy A B S)
          → All (Waiting bearer) b.pool
          → issued_count (turns json store h s (map proceed is) b).pool ≤ 1
      unfolding turns turn
      Waiting-turns [] b all = let none_issued = Waiting-none_issued b.pool all in ground arith
      Waiting-turns (i ∷ is) b all = elim (advance-Waiting i b.pool b.calls b.world all) [
        | inl (waits, _) ↦ Waiting-turns is (turn json store h s (proceed i) b) waits
        | inr (_, wins, spent) ↦ Settled-turns is (turn json store h s (proceed i) b) (wins, spent)
      ]

module _ {A : Type 0} ⦃F : Amount A⦄ where
  -- Without a bearer token, nothing is asked of the store.
  absent-Gated :
      {K P : Type 0} (s : Issuer A K P) (authorization : String) (body : Option CredentialRequest)
      → after_prefix "Bearer " authorization ≡ none
      → Gated "" (issue s authorization body)
  unfolding issue
  absent-Gated s authorization body absent =
      Gated-require _ _ _ _ _ λ bearer given. cc (absent, given)

  bearer_of :
      {K P : Type 0} (s : Issuer A K P) (authorization : String)
      → (bearer : String) × ((body : Option CredentialRequest)
          → Gated bearer (issue s authorization body))
  bearer_of s authorization = elim (Option-cases (after_prefix "Bearer " authorization)) [
    | inl absent ↦ ("", λ body. absent-Gated s authorization body absent)
    | inr (bearer, given) ↦ (bearer, λ body. issue-Gated s authorization bearer body given)
  ]

  module _ {K P : Type 0} (s : Server A K P) where
    -- The requests `POST /v1/credential` with a header Authorization, before their first step.
    abbrev pub rush : String → List (Option CredentialRequest) → List (Flight A)
    rush authorization [] = []
    rush authorization (body ∷ bodies) =
        flying (handle s (post_credential authorization body)) ∷ rush authorization bodies

  module _ {K P B S : Type 0} (s : Server A K P) (json : Codec (Deposit A) B)
      (store : SessionStore S) (contract : Contract store) (h : Host) where
    rush-Waiting :
        (authorization bearer : String) (bodies : List (Option CredentialRequest))
        → ((body : Option CredentialRequest) → Gated bearer (issue s.issuer authorization body))
        → All (Waiting bearer) (rush s authorization bodies)
    unfolding handle
    rush-Waiting authorization bearer [] gated = tt
    rush-Waiting authorization bearer (body ∷ bodies) gated =
        (gated body, rush-Waiting authorization bearer bodies gated)

    -- Of any number of requests for a credential with the same header Authorization, served at the
    -- same time over a session store that keeps its contract, at most one is answered by a
    -- credential, in whatever order their calls to the outside are made and however often each
    -- proceeds.
    pub issue_rush :
        (authorization : String) (bodies : List (Option CredentialRequest)) (places : List ℕ)
        (n : ℕ) (w : World A B S)
        → issued_count
            (turns json store h s
              (map proceed places)
              (record { pool = rush s authorization bodies; calls = n; world = w })).pool
          ≤ 1
    issue_rush authorization bodies places n w =
        let (bearer, gated) = bearer_of s.issuer authorization in
        Waiting-turns bearer json store contract h s places _
          (rush-Waiting authorization bearer bodies gated)
