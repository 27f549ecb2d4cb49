-- ===== src/Tests/Issuance.antt =====
-- Two sessions for the deposit "u": one waits for its wallet, the other has its credential.
use xmiete.Prelude.{◌*◌, ◌≡◌, refl, true, false, none, some, [], ◌∷◌, ◌==◌}
use xmiete.Prelude.Int.{pos}
use xmiete.Calendar.{minute, after}
use xmiete.Host.{ok, is_ok}
use xmiete.Issuance.Session.{pending, consumed, Session}
use xmiete.Issuance.Postgres.{
  SessionRow, Sessions, holds, is_pending, select_row, session, exchange_code_for_token,
  consume_by_token, revoke_by_deposit_id, credential_status,
}
use xmiete.Issuance.Postgres.Tokens.{consume_once, consume_accepts, exchange_grants, consumed_row}
use xmiete.Issuance.Postgres.Revocation.{revoke_credential_status}
use xmiete.Tests.Data.{host}

abbrev pub waiting : SessionRow
waiting = record {
  id = "s1";
  deposit_id = "u";
  pre_authorized_code = "code";
  access_token = some "token";
  nonce = some "nonce";
  state = pending;
  created_at = 0;
  expires_at = 15 * minute;
  credential_id = none;
  valid_until = some "2027-01-01";
  status_list_index = some (pos 6);
}

abbrev pub issued : SessionRow
issued = record waiting {
  id = "s2";
  pre_authorized_code = "code2";
  access_token = some "token2";
  state = consumed;
  credential_id = some "credential";
  status_list_index = some (pos 7);
}

abbrev sessions : Sessions
sessions = issued ∷ waiting ∷ []

abbrev answer : Session
answer = record (session waiting) { state = consumed; credential_id = "new" }

consumption :
    consume_by_token "token" "new" host 0 sessions
    ≡ (ok answer, 5, issued ∷ consumed_row "new" waiting ∷ [])
unfolding consume_by_token
consumption = refl

consumed_once :
    is_ok (consume_by_token "token" "other" host 5 (issued ∷ consumed_row "new" waiting ∷ [])).0
    ≡ false
consumed_once = consume_once host 0 sessions "token" "new" consumption host 5 "other"

consume_accepts_example :
    (r : SessionRow) × (select_row (λ x. holds x.access_token "token") sessions ≡ some r)
    × (is_pending r.state ≡ true)
    × (after (host.clock 2) r.expires_at ≡ false)
    × (answer.deposit_id ≡ r.deposit_id)
    × (answer.id ≡ r.id)
    × (select_row (λ x. holds x.access_token "token") (issued ∷ consumed_row "new" waiting ∷ [])
        ≡ some (consumed_row "new" r))
consume_accepts_example = consume_accepts host 0 sessions "token" "new" consumption

abbrev granted : SessionRow
granted = record waiting { access_token = some "uuuu"; nonce = some "uuuuu" }

exchange :
    exchange_code_for_token "code" host 0 sessions
    ≡ (ok ("uuuu", "uuuuu"), 7, issued ∷ granted ∷ [])
unfolding exchange_code_for_token
exchange = refl

exchange_grants_example :
    (r : SessionRow) × (x : SessionRow) × (select_row
        (λ y. y.pre_authorized_code == "code")
        sessions
      ≡ some r)
    × (is_pending r.state ≡ true)
    × (after (host.clock 2) r.expires_at ≡ false)
    × (select_row (λ y. holds y.access_token "uuuu") (issued ∷ granted ∷ []) ≡ some x)
    × (x.id ≡ r.id)
exchange_grants_example = exchange_grants host 0 sessions "code" exchange

revocation : is_ok (revoke_by_deposit_id "u" host 0 sessions).0 ≡ true
unfolding revoke_by_deposit_id
revocation = refl

selected : select_row (λ x. holds x.credential_id "credential") sessions ≡ some issued
unfolding select_row
selected = refl

revoke_credential_status_example :
    (credential_status "credential" host 1 (revoke_by_deposit_id "u" host 0 sessions).2).0 ≡ ok true
revoke_credential_status_example =
    revoke_credential_status host 0 sessions "u" revocation "credential" issued selected host 1 refl
