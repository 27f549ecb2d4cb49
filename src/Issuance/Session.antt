-- ===== src/Issuance/Session.antt =====
-- A session of OID4VCI issuance (server/internal/issuance/session.go) and the interface that keeps
-- the sessions (server/internal/issuance/store.go). An operation that answers `false` or an error
-- has an outcome other than `ok`.
use xmiete.Prelude.{String, Bool, List}
use xmiete.Prelude.Int.{ℤ}
use xmiete.Calendar.{Time}
use xmiete.Host.{Io}

pub data SessionState : Type 0 where
  pending consumed revoked : SessionState

pub record Session : Type 0 where
  pub id : String
  pub deposit_id : String
  pub pre_authorized_code : String
  pub access_token : String
  pub nonce : String
  pub state : SessionState
  pub created_at : Time
  pub expires_at : Time
  pub credential_id : String
  pub valid_until : String
  pub status_list_index : ℤ

pub record SessionStore (S : Type 0) : Type 0 where
  -- the deposit, the end of the pledge and the index in the status list
  pub create : String → String → ℤ → Io S Session
  pub get_by_id : String → Io S Session
  pub get_by_code : String → Io S Session
  pub get_by_token : String → Io S Session
  -- the access token and the nonce
  pub exchange_code_for_token : String → Io S (String × String)
  -- the token and the credential
  pub consume_by_token : String → String → Io S Session
  pub revoke_by_deposit_id : String → Io S (Unit {0})
  -- `true` is "revoked", `false` is "active"
  pub credential_status : String → Io S Bool
  pub revoked_status_list_indices : Io S (List ℤ)
