-- ===== src/Api/Call.antt =====
-- The calls of the handlers for credentials (server/internal/api/issuer_handlers.go and
-- verifier_handlers.go) beside those for deposits: to the interfaces issuance.SessionStore and
-- issuance.IndexAllocator, to the sessions of presentations, and to uuid and rand.
use xmiete.Prelude.{ℕ, suc, ◌+◌, String, Bool, Option, none, some, List}
use xmiete.Prelude.Int.{ℤ}
use xmiete.Host.{Host, Outcome, ok, not_found, failed, panicked}
use xmiete.Crypto.{Bytes}
use xmiete.Issuance.Session.{Session, SessionStore}
use xmiete.Issuance.Allocator.{postgres_allocate_index}
use xmiete.Verification
use xmiete.Verification.{VpSession, VpSessions}

pub data Call : Type 0 where
  uuid : Call
  -- rand.Read for each of the six disclosures of a credential
  salts : Call
  allocate_index : Call
  create_session : String → String → ℤ → Call
  session_by_id session_by_token : String → Call
  exchange_code : String → Call
  consume_token : String → String → Call
  credential_status : String → Call
  revoked_indices : Call
  vp_create : VpSession → Call
  vp_get vp_delete : String → Call

-- `none` is `false` or an error.
abbrev pub Answer : Call → Type 0
Answer uuid = String
Answer salts = ℕ → Option Bytes
Answer allocate_index = Option ℤ
Answer (create_session _ _ _) = Option Session
Answer (session_by_id _) = Option Session
Answer (session_by_token _) = Option Session
Answer (exchange_code _) = Option (String × String)
Answer (consume_token _ _) = Option Session
Answer (credential_status _) = Option Bool
Answer revoked_indices = Option (List ℤ)
Answer (vp_create _) = Unit {0}
Answer (vp_get _) = Option VpSession
Answer (vp_delete _) = Unit {0}

abbrev pub answered : {R : Type 0} → Outcome R → Option R
answered (ok r) = some r
answered not_found = none
answered failed = none
answered panicked = none

-- What the calls read and change.
pub record Wallets (S : Type 0) : Type 0 where
  pub sessions : S
  pub next_index : ℕ
  pub vp_sessions : VpSessions

module _ {S : Type 0} (store : SessionStore S) (h : Host) where
  abbrev on_sessions : {R : Type 0} → Wallets S → Outcome R × ℕ × S → Option R × ℕ × Wallets S
  on_sessions w (r, n, s) = (answered r, n, record w { sessions = s })

  unfoldable pub perform : (c : Call) → ℕ → Wallets S → Answer c × ℕ × Wallets S
  unfolding postgres_allocate_index
  perform uuid n w = (h.uuid n, suc n, w)
  perform salts n w = (λ i. h.random (n + i), n + 6, w)
  perform allocate_index n w =
      let (r, n', next) = postgres_allocate_index h n w.next_index in
      (answered r, n', record w { next_index = next })
  perform (create_session deposit_id valid_until index) n w =
      on_sessions w (store.create deposit_id valid_until index h n w.sessions)
  perform (session_by_id id) n w = on_sessions w (store.get_by_id id h n w.sessions)
  perform (session_by_token token) n w = on_sessions w (store.get_by_token token h n w.sessions)
  perform (exchange_code code) n w =
      on_sessions w (store.exchange_code_for_token code h n w.sessions)
  perform (consume_token token id) n w =
      on_sessions w (store.consume_by_token token id h n w.sessions)
  perform (credential_status id) n w = on_sessions w (store.credential_status id h n w.sessions)
  perform revoked_indices n w = on_sessions w (store.revoked_status_list_indices h n w.sessions)
  perform (vp_create session) n w =
      (tt, n, record w { vp_sessions = Verification.create session w.vp_sessions })
  perform (vp_get id) n w = (Verification.get_by_id id w.vp_sessions, n, w)
  perform (vp_delete id) n w =
      (tt, n, record w { vp_sessions = Verification.delete id w.vp_sessions })
