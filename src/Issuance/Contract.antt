-- ===== src/Issuance/Contract.antt =====
-- What the handlers rely on of the interface SessionStore (server/internal/issuance/store.go).
use xmiete.Prelude.{ℕ, String, true, false, ◌≡◌}
use xmiete.Host.{Host, is_ok}
use xmiete.Issuance.Session.{SessionStore}

pub record Contract {S : Type 0} (store : SessionStore S) : Type 0 where
  -- looking a session up by its token changes nothing
  pub reads : (token : String) (h : Host) (n : ℕ) (s : S) → (store.get_by_token token h n s).2 ≡ s
  -- a token that was accepted for a credential is not accepted again
  pub once :
      (token credential_id : String) (h : Host) (n : ℕ) (s : S)
      → is_ok (store.consume_by_token token credential_id h n s).0 ≡ true
      → (other_id : String) (h' : Host) (m : ℕ)
      → is_ok
          (store.consume_by_token token other_id h' m
            (store.consume_by_token token credential_id h n s).2).0
        ≡ false
  -- a token that is not accepted leaves the sessions
  pub refused :
      (token credential_id : String) (h : Host) (n : ℕ) (s : S)
      → is_ok (store.consume_by_token token credential_id h n s).0 ≡ false
      → (store.consume_by_token token credential_id h n s).2 ≡ s
