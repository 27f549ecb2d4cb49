-- ===== src/Tests/Refusals.antt =====
-- Requests on a deposit whose settlement the tenant proposed.
use xmiete.Prelude.{ℕ, ◌≡◌, refl, ◌∷◌, [], some, false}
use xmiete.Models.{settle_proposed, released, pledged, same_state, Deposit}
use xmiete.Repository.{select_data}
use xmiete.Repository.View.{view}
use xmiete.StateMachine.Graph.{◌⟶◌, documented}
use xmiete.Issuance.Postgres.{Sessions, postgres_sessions}
use xmiete.Api.Settlement.{settle_accept}
use xmiete.Api.Run.{World, run}
use xmiete.Api.Server.{handle, post_release, post_issue_credential}
use xmiete.Api.Refusals.{accept_own_proposal}
use xmiete.Api.Refusals.Transitions.{KeepsState, releasing, refuses_transition}
use xmiete.Api.Refusals.Pledged.{issuing, refuses_unpledged}
use xmiete.Tests.Wallet.{server}
use xmiete.Tests.Data.{thousandths, host, json, start}
use xmiete.Tests.Lifecycle.{left}

abbrev negotiated : Deposit ℕ
negotiated = record left { deposit = record left.deposit { lifecycle_state = settle_proposed } }

abbrev world : World ℕ (Deposit ℕ) Sessions
world = record start {
  db = record start.db {
    deposits = record { id = "u"; lifecycle_state = settle_proposed; raw = negotiated } ∷ [];
  };
}

stored : view json world.db "u" ≡ some negotiated
unfolding view select_data
stored = refl

accept_own_proposal_example :
    (run json postgres_sessions
      (settle_accept "" "u" (some (record { accepted_by = "TENANT" })))
      host
      0
      world).2
    ≡ world
accept_own_proposal_example =
    accept_own_proposal json postgres_sessions host world 0 "" "u"
      (record { accepted_by = "TENANT" }) negotiated _ stored refl refl

no_release : ¬ (settle_proposed ⟶ released)
no_release (documented e) = elim e [ ]

moves_on : ¬ KeepsState {A = ℕ} (post_release "u") settle_proposed
moves_on e = elim e [ ]

refuses_transition_example :
    (run json postgres_sessions (handle server (post_release "u")) host 0 world).2 ≡ world
refuses_transition_example =
    refuses_transition json postgres_sessions host world server 0 (post_release "u") "u" released
      negotiated releasing stored no_release moves_on

unpledged : same_state negotiated.deposit.lifecycle_state pledged ≡ false
unfolding same_state
unpledged = refl

refuses_unpledged_example :
    (run json postgres_sessions
      (handle server (post_issue_credential "u" "2027-01-01"))
      host
      0
      world).2
    ≡ world
refuses_unpledged_example =
    refuses_unpledged json postgres_sessions host world "u" negotiated stored unpledged server _
      (issuing {valid_until = "2027-01-01"}) 0
