-- ===== src/Tests/Memory.antt =====
-- A session in memory whose credential is revoked.
use xmiete.Prelude.{◌*◌, ◌≡◌, refl, true, false, some, [], ◌∷◌, lookup}
use xmiete.Calendar.{minute}
use xmiete.Prelude.Int.{pos}
use xmiete.Host.{ok, is_ok}
use xmiete.Issuance.Session.{Session, pending, consumed}
use xmiete.Issuance.Memory.{
  Store, empty_store, consume_by_token, credential_status, revoke_by_deposit_id,
}
use xmiete.Issuance.Memory.Tokens.{memory_once}
use xmiete.Issuance.Memory.Revocation.{memory_revoke_status}
use xmiete.Tests.Data.{host}

abbrev session : Session
session = record {
  id = "s1";
  deposit_id = "u";
  pre_authorized_code = "code";
  access_token = "token";
  nonce = "nonce";
  state = pending;
  created_at = 0;
  expires_at = 15 * minute;
  credential_id = "";
  valid_until = "2027-01-01";
  status_list_index = pos 7;
}

abbrev store : Store
store = record empty_store {
  heap = session ∷ [];
  by_id = ("s1", 0) ∷ [];
  by_code = ("code", 0) ∷ [];
  by_token = ("token", 0) ∷ [];
}

accepted : is_ok (consume_by_token "token" "credential" host 0 store).0 ≡ true
unfolding consume_by_token
accepted = refl

memory_once_example :
    is_ok
      (consume_by_token "token" "other" host 5
        (consume_by_token "token" "credential" host 0 store).2).0
    ≡ false
memory_once_example = memory_once "token" "credential" host 0 store accepted "other" host 5

abbrev issued_store : Store
issued_store = record store {
  heap = record session { state = consumed; credential_id = "credential" } ∷ [];
  by_cred = ("credential", 0) ∷ [];
}

mapped : lookup "credential" issued_store.by_cred ≡ some 0
unfolding lookup
mapped = refl

revoked_status :
    (credential_status "credential" host 4 (revoke_by_deposit_id "u" host 0 issued_store).2).0
    ≡ ok true
revoked_status =
    memory_revoke_status "u" "credential" issued_store 0
      (record session { state = consumed; credential_id = "credential" }) mapped refl host host 0 4
