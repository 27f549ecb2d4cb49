-- ===== src/Issuance/Postgres.antt =====
-- The sessions in PostgreSQL: server/internal/db/session_store.go over the table issuance_sessions
-- of server/internal/db/migrations/002_issuance_sessions.sql and 003_status_list.sql. A column that
-- may be NULL is an `Option`; the column `state` only ever gets one of the three states.
pub mod Rows
pub mod Tokens
pub mod Revocation
pub mod Keeps
use xmiete.Prelude.{
  String, Bool, true, false, not, ◌&&◌, ◌||◌, Option, none, some, List, [], ◌∷◌, ◌++◌, ◌+◌, ◌*◌,
  ◌==◌, any, if◌then◌else◌,
}
use xmiete.Prelude.Int.{ℤ, pos}
use xmiete.Calendar.{Time, minute, after}
use xmiete.Host.{
  Outcome, ok, not_found, failed, Io, ◌>>=◌, ◌>>◌, uuid_new, time_now, statement, modify, pure,
  gets, throw, or_else, transaction,
}
use xmiete.Issuance.Session.{SessionState, pending, consumed, revoked, Session, SessionStore}

pub record SessionRow : Type 0 where
  pub id : String
  pub deposit_id : String
  pub pre_authorized_code : String
  pub access_token : Option String
  pub nonce : Option String
  pub state : SessionState
  pub created_at : Time
  pub expires_at : Time
  pub credential_id : Option String
  pub valid_until : Option String
  pub status_list_index : Option ℤ

abbrev pub Sessions : Type 0
Sessions = List SessionRow

-- WHERE column = $1, which no NULL satisfies
abbrev pub holds : Option String → String → Bool
holds none k = false
holds (some v) k = v == k

-- COALESCE
abbrev coalesce : {R : Type 0} → R → Option R → R
coalesce r none = r
coalesce r (some v) = v

abbrev pub is_pending : SessionState → Bool
is_pending pending = true
is_pending _ = false

abbrev pub is_consumed : SessionState → Bool
is_consumed consumed = true
is_consumed _ = false

abbrev pub is_revoked : SessionState → Bool
is_revoked revoked = true
is_revoked _ = false

-- SELECT … WHERE a column with unique values has a value
unfoldable pub select_row : (SessionRow → Bool) → Sessions → Option SessionRow
select_row test [] = none
select_row test (row ∷ rows) = if test row then some row else select_row test rows

-- UPDATE issuance_sessions SET … WHERE …
unfoldable pub update_sessions :
    (SessionRow → Bool) → (SessionRow → SessionRow) → Sessions → Sessions
update_sessions test set [] = []
update_sessions test set (row ∷ rows) =
    (if test row then set row else row) ∷ update_sessions test set rows

-- The session of a row, as `queryOne` scans it.
abbrev pub session : SessionRow → Session
session row = record {
  id = row.id;
  deposit_id = row.deposit_id;
  pre_authorized_code = row.pre_authorized_code;
  access_token = coalesce "" row.access_token;
  nonce = coalesce "" row.nonce;
  state = row.state;
  created_at = row.created_at;
  expires_at = row.expires_at;
  credential_id = coalesce "" row.credential_id;
  valid_until = coalesce "" row.valid_until;
  status_list_index = coalesce (pos 0) row.status_list_index;
}

-- SELECT … FOR UPDATE of the session of a code or a token, and the tests before it is accepted.
unfoldable pub select_pending : (SessionRow → Bool) → Io Sessions SessionRow
unfolding select_row
select_pending test = do
  statement
  row ← gets (λ rows. or_else not_found (select_row test rows))
  throw (if is_pending row.state then ok tt else not_found)
  now ← time_now
  throw (if after now row.expires_at then not_found else ok tt)
  pure row

unfoldable pub create : String → String → ℤ → Io Sessions Session
create deposit_id valid_until status_list_index = do
  id ← uuid_new
  code ← uuid_new
  nonce ← uuid_new
  created_at ← time_now
  now ← time_now
  let row : SessionRow = record {
    id = id;
    deposit_id = deposit_id;
    pre_authorized_code = code;
    access_token = none;
    nonce = some nonce;
    state = pending;
    created_at = created_at;
    expires_at = now + 15 * minute;
    credential_id = none;
    valid_until = some valid_until;
    status_list_index = some status_list_index;
  }
  statement
  gets λ rows. if any (λ r. r.id == id || r.pre_authorized_code == code) rows then failed else ok tt
  modify (λ rows. rows ++ row ∷ [])
  pure (session row)

unfoldable pub query_one : (SessionRow → Bool) → Io Sessions Session
unfolding select_row
query_one test = do
  statement
  row ← gets (λ rows. or_else not_found (select_row test rows))
  pure (session row)

abbrev pub get_by_id : String → Io Sessions Session
get_by_id id = query_one (λ r. r.id == id)

abbrev pub get_by_code : String → Io Sessions Session
get_by_code code = query_one (λ r. r.pre_authorized_code == code)

abbrev pub get_by_token : String → Io Sessions Session
get_by_token token = query_one (λ r. holds r.access_token token)

unfoldable pub exchange_code_for_token : String → Io Sessions (String × String)
unfolding select_pending update_sessions
exchange_code_for_token code = transaction do
  row ← select_pending (λ r. r.pre_authorized_code == code)
  token ← uuid_new
  nonce ← uuid_new
  statement
  gets λ rows.
      if any (λ r. holds r.access_token token && not (r.id == row.id)) rows then failed else ok tt
  modify (
      update_sessions (λ r. r.id == row.id)
        λ r. record r { access_token = some token; nonce = some nonce })
  pure (token, nonce)

unfoldable pub consume_by_token : String → String → Io Sessions Session
unfolding select_pending update_sessions
consume_by_token token credential_id = transaction do
  row ← select_pending (λ r. holds r.access_token token)
  statement
  gets λ rows.
      if any (λ r. holds r.credential_id credential_id && not (r.id == row.id)) rows
      then failed
      else ok tt
  modify (
      update_sessions (λ r. r.id == row.id)
        λ r. record r { state = consumed; credential_id = some credential_id })
  pure (record (session row) {
    access_token = token;
    state = consumed;
    credential_id = credential_id;
  })

unfoldable pub revoke_by_deposit_id : String → Io Sessions (Unit {0})
unfolding update_sessions
revoke_by_deposit_id deposit_id = do
  statement
  modify (
      update_sessions (λ r. r.deposit_id == deposit_id && is_consumed r.state)
        λ r. record r { state = revoked })

unfoldable pub credential_status : String → Io Sessions Bool
unfolding select_row
credential_status credential_id = do
  statement
  row ←
      gets (λ rows. or_else not_found (select_row (λ r. holds r.credential_id credential_id) rows))
  pure (is_revoked row.state)

unfoldable pub revoked_indices : Sessions → List ℤ
revoked_indices [] = []
revoked_indices (row ∷ rows) =
    let rest = revoked_indices rows in
    if is_revoked row.state
    then elim row.status_list_index [ none ↦ rest | some i ↦ i ∷ rest ]
    else rest

unfoldable pub revoked_status_list_indices : Io Sessions (List ℤ)
unfolding revoked_indices
revoked_status_list_indices = do statement; gets (λ rows. ok (revoked_indices rows))

-- server/internal/db/session_store.go as the handlers use it.
abbrev pub postgres_sessions : SessionStore Sessions
postgres_sessions = record {
  create = create;
  get_by_id = get_by_id;
  get_by_code = get_by_code;
  get_by_token = get_by_token;
  exchange_code_for_token = exchange_code_for_token;
  consume_by_token = consume_by_token;
  revoke_by_deposit_id = revoke_by_deposit_id;
  credential_status = credential_status;
  revoked_status_list_indices = revoked_status_list_indices;
}
