-- ===== src/Tests/Interleaving.antt =====
-- Two answers of the identity provider that are served at the same time: both find the deposit
-- REQUESTED, and both move it to IDENTIFIED.
use xmiete.Prelude.{ℕ, ◌≡◌, refl, none, some, List, [], ◌∷◌}
use xmiete.Calendar.{second}
use xmiete.Models.{requested, identified, Deposit, HistoryEntry}
use xmiete.Repository
use xmiete.Repository.View.{view}
use xmiete.Issuance.Postgres.{Sessions, postgres_sessions}
use xmiete.StateMachine.{state_for_identity_update, transition}
use xmiete.Api.Program.{
  decode, reject_if, branch, fetch, check_transition, store, update, fire_webhook,
}
use xmiete.Api.Deposits.{create_deposit, update_identity}
use xmiete.Api.Server.{Request, handle, post_deposits, patch_identity}
use xmiete.Api.Interleaving.{Busy, Turn, arrive, proceed, step, advance, turn, turns}
use xmiete.Api.Interleaving.Histories.{NamesState, Later}
use xmiete.Api.Interleaving.Schedules.{interleaved_history}
use xmiete.Tests.Wallet.{server}
use xmiete.Tests.Data.{thousandths, host, json, posted, start}
use xmiete.Tests.Lifecycle.{entry, no_documents}

abbrev verified : Request ℕ
verified = patch_identity "u" (
    some (record {
      eid_status = "VERIFIED";
      verification_timestamp = "";
      provider_reference = "";
      wallet_metadata = none;
    }))

-- Both have read the document when the first writes it.
abbrev first_writes : List (Turn ℕ)
first_writes =
    arrive (post_deposits (some posted))
    ∷ proceed 0
    ∷ proceed 0
    ∷ arrive verified
    ∷ arrive verified
    ∷ proceed 1
    ∷ proceed 2
    ∷ proceed 1
    ∷ []

abbrev second_writes : List (Turn ℕ)
second_writes = proceed 2 ∷ []

abbrev quiet : Busy ℕ (Deposit ℕ) Sessions
quiet = record { pool = []; calls = 0; world = start }

abbrev document : List HistoryEntry → Deposit ℕ
document history = record posted {
  id = "u";
  meta = record posted.meta { timestamp = second };
  tenant = record posted.tenant { eid_status = "VERIFIED" };
  deposit = record posted.deposit { lifecycle_state = identified; history = history };
}

abbrev after_first : List HistoryEntry
after_first = entry requested 1 "TENANT" "" ∷ entry identified 8 "IDENTITY_PROVIDER" "" ∷ []

wrote_first :
    view json (turns json postgres_sessions host server first_writes quiet).world.db "u"
    ≡ some (document after_first)
unfolding turns turn step advance handle create_deposit update_identity decode reject_if branch
    fetch check_transition store update fire_webhook transition state_for_identity_update
    Repository.create Repository.get_by_id Repository.update_state Repository.select_data view
wrote_first = refl

-- IDENTIFIED follows IDENTIFIED, which the state machine forbids.
wrote_both :
    view json
      (turns json postgres_sessions host server second_writes
        (turns json postgres_sessions host server first_writes quiet)).world.db
      "u"
    ≡ some (
        document (
          entry requested 1 "TENANT" ""
          ∷ entry identified 8 "IDENTITY_PROVIDER" ""
          ∷ entry identified 14 "IDENTITY_PROVIDER" ""
          ∷ []))
unfolding turns turn step advance handle create_deposit update_identity decode reject_if branch
    fetch check_transition store update fire_webhook transition state_for_identity_update
    Repository.create Repository.get_by_id Repository.update_state Repository.select_data view
wrote_both = refl

interleaved_history_example :
    NamesState (document after_first)
    × Later json
        (turns json postgres_sessions host server second_writes
          (turns json postgres_sessions host server first_writes quiet)).world.db
        "u"
        (document after_first)
interleaved_history_example =
    interleaved_history json postgres_sessions host server 0 start no_documents first_writes
      second_writes "u" (document after_first) wrote_first
