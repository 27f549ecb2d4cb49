-- ===== src/Issuance/Memory.antt =====
-- The sessions in memory: `Store` of server/internal/issuance/session.go. The sessions stand in a
-- heap, and the four maps hold their places, as they hold pointers in Go. The mutex makes each
-- operation one step.
pub mod Tokens
pub mod Revocation
use xmiete.Prelude.{
  ℕ, zero, suc, ◌*◌, ◌+◌, String, Bool, Option, none, some, List, [], ◌∷◌, ◌++◌, ◌==◌, lookup, put,
  if◌then◌else◌,
}
use xmiete.Prelude.Int.{ℤ}
use xmiete.Calendar.{Time, minute, after}
use xmiete.Host.{
  ok, not_found, Io, ◌>>=◌, ◌>>◌, uuid_new, time_now, modify, pure, gets, throw, or_else,
}
use xmiete.Issuance.Session.{pending, consumed, revoked, Session, SessionStore}
use xmiete.Issuance.Postgres.{is_pending, is_revoked}

abbrev pub Place : Type 0
Place = ℕ

-- A Go map from texts to sessions.
abbrev pub Index : Type 0
Index = List (String × Place)

pub record Store : Type 0 where
  pub heap : List Session
  pub by_id : Index
  pub by_code : Index
  pub by_token : Index
  pub by_cred : Index

abbrev pub empty_store : Store
empty_store = record { heap = []; by_id = []; by_code = []; by_token = []; by_cred = [] }

abbrev pub next_place : List Session → Place
next_place [] = zero
next_place (_ ∷ heap) = suc (next_place heap)

-- The session of a pointer; the maps hold only places of the heap.
abbrev pub cell : Place → List Session → Option Session
cell p [] = none
cell zero (s ∷ heap) = some s
cell (suc p) (_ ∷ heap) = cell p heap

unfoldable pub set_cell : Place → (Session → Session) → List Session → List Session
set_cell p f [] = []
set_cell zero f (s ∷ heap) = f s ∷ heap
set_cell (suc p) f (s ∷ heap) = s ∷ set_cell p f heap

abbrev pub place_and_session : List Session → Place → Option Session → Option (Place × Session)
place_and_session heap p none = none
place_and_session heap p (some s) = some (p, s)

abbrev pub follow : List Session → Option Place → Option (Place × Session)
follow heap none = none
follow heap (some p) = place_and_session heap p (cell p heap)

-- `sess, ok := index[key]`
unfoldable pub find : (Store → Index) → String → Io Store (Place × Session)
unfolding lookup
find index key = gets (λ s. or_else not_found (follow s.heap (lookup key (index s))))

unfoldable pub create : String → String → ℤ → Io Store Session
unfolding put
create deposit_id valid_until status_list_index = do
  id ← uuid_new
  code ← uuid_new
  nonce ← uuid_new
  created_at ← time_now
  now ← time_now
  let sess : Session = record {
    id = id;
    deposit_id = deposit_id;
    pre_authorized_code = code;
    access_token = "";
    nonce = nonce;
    state = pending;
    created_at = created_at;
    expires_at = now + 15 * minute;
    credential_id = "";
    valid_until = valid_until;
    status_list_index = status_list_index;
  }
  modify λ s. record s {
    heap = s.heap ++ sess ∷ [];
    by_id = put id (next_place s.heap) s.by_id;
    by_code = put code (next_place s.heap) s.by_code;
  }
  pure sess

abbrev found_in : (Store → Index) → String → Io Store Session
found_in index key = do found ← find index key; pure found.1

abbrev pub get_by_id : String → Io Store Session
get_by_id = found_in (λ s. s.by_id)

abbrev pub get_by_code : String → Io Store Session
get_by_code = found_in (λ s. s.by_code)

abbrev pub get_by_token : String → Io Store Session
get_by_token = found_in (λ s. s.by_token)

-- `!ok || sess.State != SessionStatePending || time.Now().After(sess.ExpiresAt)`
unfoldable pub find_pending : (Store → Index) → String → Io Store (Place × Session)
unfolding find
find_pending index key = do
  found ← find index key
  throw (if is_pending found.1.state then ok tt else not_found)
  now ← time_now
  throw (if after now found.1.expires_at then not_found else ok tt)
  pure found

unfoldable pub exchange_code_for_token : String → Io Store (String × String)
unfolding find_pending put set_cell
exchange_code_for_token code = do
  found ← find_pending (λ s. s.by_code) code
  token ← uuid_new
  nonce ← uuid_new
  modify λ s. record s {
    heap = set_cell found.0 (λ x. record x { access_token = token; nonce = nonce }) s.heap;
    by_token = put token found.0 s.by_token;
  }
  pure (token, nonce)

abbrev pub consumed_as : String → Session → Session
consumed_as credential_id s = record s { state = consumed; credential_id = credential_id }

unfoldable pub consume_by_token : String → String → Io Store Session
unfolding find_pending put set_cell
consume_by_token token credential_id = do
  found ← find_pending (λ s. s.by_token) token
  modify λ s. record s {
    heap = set_cell found.0 (consumed_as credential_id) s.heap;
    by_cred = put credential_id found.0 s.by_cred;
  }
  pure (consumed_as credential_id found.1)

abbrev pub revoked_for : String → Session → Session
revoked_for deposit_id s = if s.deposit_id == deposit_id then record s { state = revoked } else s

-- The loop over `byCred`.
unfoldable pub revoke_cells : String → Index → List Session → List Session
unfolding set_cell
revoke_cells deposit_id [] heap = heap
revoke_cells deposit_id ((_, p) ∷ index) heap =
    revoke_cells deposit_id index (set_cell p (revoked_for deposit_id) heap)

unfoldable pub revoke_by_deposit_id : String → Io Store (Unit {0})
unfolding revoke_cells
revoke_by_deposit_id deposit_id =
    modify λ s. record s { heap = revoke_cells deposit_id s.by_cred s.heap }

unfoldable pub revoked_cells : List Session → Index → List ℤ
revoked_cells heap [] = []
revoked_cells heap ((_, p) ∷ index) =
    let rest = revoked_cells heap index in
    elim (cell p heap) [
      | none ↦ rest
      | some s ↦ if is_revoked s.state then s.status_list_index ∷ rest else rest
    ]

unfoldable pub revoked_status_list_indices : Io Store (List ℤ)
unfolding revoked_cells
revoked_status_list_indices = gets (λ s. ok (revoked_cells s.heap s.by_cred))

unfoldable pub credential_status : String → Io Store Bool
unfolding find
credential_status credential_id = do
  found ← find (λ s. s.by_cred) credential_id
  pure (is_revoked found.1.state)

abbrev pub memory_sessions : SessionStore Store
memory_sessions = record {
  create = create;
  get_by_id = get_by_id;
  get_by_code = get_by_code;
  get_by_token = get_by_token;
  exchange_code_for_token = exchange_code_for_token;
  consume_by_token = consume_by_token;
  revoke_by_deposit_id = revoke_by_deposit_id;
  credential_status = credential_status;
  revoked_status_list_indices = revoked_status_list_indices;
}
