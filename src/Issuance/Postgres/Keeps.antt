-- ===== src/Issuance/Postgres/Keeps.antt =====
-- The sessions in PostgreSQL (server/internal/db/session_store.go) keep the contract of the interface.
use xmiete.Prelude.{
  ℕ, String, true, false, ◌≡◌, refl, ap, arith, Bool-cases, Option-cases, inl, inr,
}
use xmiete.Host.{Host, Outcome, ok, not_found, failed, panicked, is_ok}
use xmiete.Issuance.Contract.{Contract}
use xmiete.Issuance.Postgres.{
  Sessions, holds, select_row, query_one, get_by_token, consume_by_token, postgres_sessions,
}
use xmiete.Issuance.Postgres.Tokens.{consume_once}

get_by_token-reads :
    (token : String) (h : Host) (n : ℕ) (rows : Sessions) → (get_by_token token h n rows).2 ≡ rows
unfolding query_one
get_by_token-reads token h n rows = elim (Bool-cases (h.fails n)) [
  | inl fails ↦ rw fails refl
  | inr works ↦ elim (Option-cases (select_row (λ r. holds r.access_token token) rows)) [
    | inl e ↦ rw (works, e) refl
    | inr (row, e) ↦ rw (works, e) refl
  ]
]

ok_outcome : {R : Type 0} (o : Outcome R) → is_ok o ≡ true → (r : R) × (o ≡ ok r)
ok_outcome (ok r) e = (r, refl)
ok_outcome not_found e = ground arith
ok_outcome failed e = ground arith
ok_outcome panicked e = ground arith

consume-refused :
    (token credential_id : String) (h : Host) (n : ℕ) (rows : Sessions)
    → is_ok (consume_by_token token credential_id h n rows).0 ≡ false
    → (consume_by_token token credential_id h n rows).2 ≡ rows
unfolding consume_by_token
consume-refused token credential_id h n rows refused = ground arith

-- The sessions in PostgreSQL keep the contract of the session store: looking a session up by its
-- token changes nothing, no token is accepted twice, and one that is refused leaves the sessions.
pub postgres-Contract : Contract postgres_sessions
postgres-Contract = record {
  reads = get_by_token-reads;
  refused = consume-refused;
  once = λ token credential_id h n rows accepted other_id h' m.
      let x = consume_by_token token credential_id h n rows in
      let (session, e) = ok_outcome x.0 accepted in
      consume_once h n rows token credential_id (ap (λ o. (o, x.1, x.2)) e) h' m other_id;
}
