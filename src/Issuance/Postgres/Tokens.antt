-- ===== src/Issuance/Postgres/Tokens.antt =====
-- The exchange of codes for tokens and of tokens for credentials, in
-- server/internal/db/session_store.go.
use xmiete.Prelude.{
  ℕ, suc, not, any, ◌&&◌, [], ◌∷◌, Bool-cases, inl, inr, ◌≡◌, refl, String, Bool, true, false, some,
  ◌==◌, eq_refl, arith,
}
use xmiete.Prelude.{eq_iff}
use xmiete.Host.{Host, Outcome, ok, not_found, failed, panicked, is_ok}
use xmiete.Calendar.{after}
use xmiete.Issuance.Session.{Session, consumed}
use xmiete.Issuance.Postgres.{
  SessionRow, Sessions, select_pending, holds, is_pending, select_row, update_sessions,
  exchange_code_for_token, consume_by_token,
}
use xmiete.Issuance.Postgres.Rows.{select_row-update_sessions}

abbrev pub consumed_row : String → SessionRow → SessionRow
consumed_row credential_id r = record r { state = consumed; credential_id = some credential_id }

ok_of : {R : Type 0} (o : Outcome R) → (is_ok o ≡ false → ⊥) → (r : R) × (o ≡ ok r)
ok_of (ok r) f = (r, refl)
ok_of not_found f = absurd (f refl)
ok_of failed f = absurd (f refl)
ok_of panicked f = absurd (f refl)

module _ (h : Host) (n : ℕ) (rows : Sessions) (test : SessionRow → Bool) where
  -- What an accepted session has.
  record IsAccepted (r : SessionRow) : Type 0 where
    selected : select_row test rows ≡ some r
    waits : is_pending r.state ≡ true
    lives : after (h.clock (suc n)) r.expires_at ≡ false
    same_rows : (select_pending test h n rows).2 ≡ rows

  select_pending-IsAccepted :
      (r : SessionRow) → (select_pending test h n rows).0 ≡ ok r → IsAccepted r
  unfolding select_pending
  select_pending-IsAccepted r e = record {
    selected = ground arith;
    waits = ground arith;
    lives = ground arith;
    same_rows = ground arith;
  }

  never_pending :
      (r : SessionRow)
      → select_row test rows ≡ some r
      → is_pending r.state ≡ false
      → is_ok (select_pending test h n rows).0 ≡ false
  unfolding select_pending
  never_pending r e done = ground arith

module _ (h : Host) (n : ℕ) (rows : Sessions) (token credential_id : String) {s : Session} {n' : ℕ}
    {rows' : Sessions}
    (done : consume_by_token token credential_id h n rows ≡ (ok s, n', rows')) where
  consumed_selects :
      (r : SessionRow) × ((select_pending (λ x. holds x.access_token token) h (suc n) rows).0
        ≡ ok r)
  unfolding consume_by_token
  consumed_selects =
      ok_of (select_pending (λ x. holds x.access_token token) h (suc n) rows).0 λ e. ground arith

  consumed_accepts :
      (r : SessionRow) × IsAccepted h (suc n) rows (λ x. holds x.access_token token) r
      × (rows' ≡ update_sessions (λ x. x.id == r.id) (consumed_row credential_id) rows)
      × (s.deposit_id ≡ r.deposit_id)
      × (s.id ≡ r.id)
  unfolding consume_by_token
  consumed_accepts =
      let (r, e) = consumed_selects in
      let a = select_pending-IsAccepted h (suc n) rows (λ x. holds x.access_token token) r e in
      (r, a, ground (arith, a.same_rows), ground arith, ground arith)

  consumed_found :
      (r : SessionRow)
      → rows' ≡ update_sessions (λ x. x.id == r.id) (consumed_row credential_id) rows
      → select_row (λ x. holds x.access_token token) rows ≡ some r
      → select_row (λ x. holds x.access_token token) rows' ≡ some (consumed_row credential_id r)
  consumed_found r written e =
      rw
        (
          written,
          select_row-update_sessions (λ x. holds x.access_token token) (λ x. x.id == r.id)
              (consumed_row credential_id) (λ x. refl) rows,
          e,
          eq_refl r.id,
        )
        refl

  -- The table that the acceptance of a token leaves does not accept the token again, for whichever
  -- credential and however the clock and the database behave.
  pub consume_once :
      (h' : Host) (m : ℕ) (other_id : String)
      → is_ok (consume_by_token token other_id h' m rows').0 ≡ false
  unfolding consume_by_token
  consume_once h' m other_id =
      let (r, a, written, deposit, id) = consumed_accepts in
      ground (
        arith,
        never_pending h' (suc m) rows' (λ x. holds x.access_token token)
            (consumed_row credential_id r) (consumed_found r written a.selected) refl,
      )

  -- A token is accepted only for a PENDING session that has not expired. The answer has the
  -- identifier and the deposit of that session, which the table then has as CONSUMED.
  pub consume_accepts :
      (r : SessionRow) × (select_row (λ x. holds x.access_token token) rows ≡ some r)
      × (is_pending r.state ≡ true)
      × (after (h.clock (suc (suc n))) r.expires_at ≡ false)
      × (s.deposit_id ≡ r.deposit_id)
      × (s.id ≡ r.id)
      × (select_row (λ x. holds x.access_token token) rows' ≡ some (consumed_row credential_id r))
  consume_accepts =
      let (r, a, written, deposit, id) = consumed_accepts in
      (r, a.selected, a.waits, a.lives, deposit, id, consumed_found r written a.selected)

abbrev granted_row : String → String → SessionRow → SessionRow
granted_row token nonce r = record r { access_token = some token; nonce = some nonce }

-- If only rows with the identifier of `r` hold the token, then after it was granted to `r` it leads
-- to such a row.
granted_found :
    (test : SessionRow → Bool) (token nonce : String) (r : SessionRow) (rows : Sessions)
    → select_row test rows ≡ some r
    → any (λ x. holds x.access_token token && not (x.id == r.id)) rows ≡ false
    → (x : SessionRow) × (select_row
          (λ y. holds y.access_token token)
          (update_sessions (λ y. y.id == r.id) (granted_row token nonce) rows)
        ≡ some x)
      × (x.id ≡ r.id)
unfolding select_row update_sessions
granted_found test token nonce r [] e free = cc
granted_found test token nonce r (row ∷ rows) e free = elim (Bool-cases (row.id == r.id)) [
  | inl same ↦ (
    granted_row token nonce row,
    ground (arith, eq_refl token),
    ground (arith, eq_iff row.id r.id),
  )
  | inr other ↦
      let (x, found, id) =
        granted_found test token nonce r rows (ground (arith, eq_refl r.id)) (ground arith) in
      (x, ground arith, id)
]

module _ (h : Host) (n : ℕ) (rows : Sessions) (code : String) {token nonce : String} {n' : ℕ}
    {rows' : Sessions}
    (done : exchange_code_for_token code h n rows ≡ (ok (token, nonce), n', rows')) where
  exchanged_selects :
      (r : SessionRow) × ((select_pending (λ y. y.pre_authorized_code == code) h (suc n) rows).0
        ≡ ok r)
  unfolding exchange_code_for_token
  exchanged_selects =
      ok_of (select_pending (λ y. y.pre_authorized_code == code) h (suc n) rows).0 λ e. ground arith

  exchanged :
      (r : SessionRow) × IsAccepted h (suc n) rows (λ y. y.pre_authorized_code == code) r
      × (any (λ x. holds x.access_token token && not (x.id == r.id)) rows ≡ false)
      × (rows' ≡ update_sessions (λ y. y.id == r.id) (granted_row token nonce) rows)
  unfolding exchange_code_for_token
  exchanged =
      let (r, e) = exchanged_selects in
      let a = select_pending-IsAccepted h (suc n) rows (λ y. y.pre_authorized_code == code) r e in
      (r, a, ground (arith, a.same_rows), ground (arith, a.same_rows))

  -- A code is exchanged only for a PENDING session that has not expired, and the token that it is
  -- exchanged for leads to that session.
  pub exchange_grants :
      (r x : SessionRow) × (select_row (λ y. y.pre_authorized_code == code) rows ≡ some r)
      × (is_pending r.state ≡ true)
      × (after (h.clock (suc (suc n))) r.expires_at ≡ false)
      × (select_row (λ y. holds y.access_token token) rows' ≡ some x)
      × (x.id ≡ r.id)
  exchange_grants =
      let (r, a, free, written) = exchanged in
      let (x, found, id) =
        granted_found (λ y. y.pre_authorized_code == code) token nonce r rows a.selected free in
      (r, x, a.selected, a.waits, a.lives, rw written found, id)
