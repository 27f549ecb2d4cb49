-- ===== src/Issuance/Memory/Tokens.antt =====
-- The tokens of the sessions in memory (server/internal/issuance/session.go).
use xmiete.Prelude.{
  ℕ, zero, suc, String, true, false, Option, none, some, List, [], ◌∷◌, ◌≡◌, refl, sym, ap, ◌∙◌,
  arith, lookup, put, ◌⊎◌, Bool-cases, Option-cases, inl, inr,
}
use xmiete.Calendar.{after}
use xmiete.Host.{Host, ok, is_ok}
use xmiete.Issuance.Session.{Session}
use xmiete.Issuance.Contract.{Contract}
use xmiete.Issuance.Postgres.{is_pending}
use xmiete.Issuance.Memory.{
  Place, Store, cell, set_cell, place_and_session, follow, find, consumed_as, consume_by_token,
  get_by_token, memory_sessions,
}

pub cell-set_cell :
    (p : Place) (f : Session → Session) (heap : List Session) (r : Session)
    → cell p heap ≡ some r
    → cell p (set_cell p f heap) ≡ some (f r)
unfolding set_cell
cell-set_cell p f [] r e = ground arith
cell-set_cell zero f (s ∷ heap) r e = ground arith
cell-set_cell (suc p) f (s ∷ heap) r e = cell-set_cell p f heap r e

module _ (token : String) (h : Host) (n : ℕ) (s : Store) where
  -- No session, or one that may not be used now.
  data Refused : Type 0 where
    absent : follow s.heap (lookup token s.by_token) ≡ none → Refused
    settled :
        (p : Place) (r : Session)
        → follow s.heap (lookup token s.by_token) ≡ some (p, r)
        → is_pending r.state ≡ false
        → Refused
    late :
        (p : Place) (r : Session)
        → follow s.heap (lookup token s.by_token) ≡ some (p, r)
        → is_pending r.state ≡ true
        → after (h.clock n) r.expires_at ≡ true
        → Refused

  refused_now :
      (credential_id : String)
      → Refused
      → is_ok (consume_by_token token credential_id h n s).0 ≡ false
  unfolding consume_by_token
  refused_now credential_id (absent e) = rw e refl
  refused_now credential_id (settled p r e not_pending) = rw (e, not_pending) refl
  refused_now credential_id (late p r e is_open gone) = rw (e, is_open, gone) refl

  refused_leaves :
      (credential_id : String) → Refused → (consume_by_token token credential_id h n s).2 ≡ s
  unfolding consume_by_token
  refused_leaves credential_id (absent e) = rw e refl
  refused_leaves credential_id (settled p r e not_pending) = rw (e, not_pending) refl
  refused_leaves credential_id (late p r e is_open gone) = rw (e, is_open, gone) refl

  abbrev Usable : Place → Session → Type 0
  Usable p r =
      (follow s.heap (lookup token s.by_token) ≡ some (p, r))
      × (is_pending r.state ≡ true)
      × (after (h.clock n) r.expires_at ≡ false)

  consume_cases : Refused ⊎ ((p : Place) × (r : Session) × Usable p r)
  consume_cases = elim (Option-cases (follow s.heap (lookup token s.by_token))) [
    | inl e ↦ inl (absent e)
    | inr ((p, r), e) ↦ elim (Bool-cases (is_pending r.state)) [
      | inr not_pending ↦ inl (settled p r e not_pending)
      | inl is_open ↦ elim (Bool-cases (after (h.clock n) r.expires_at)) [
        | inl gone ↦ inl (late p r e is_open gone)
        | inr in_time ↦ inr (p, r, (e, is_open, in_time))
      ]
    ]
  ]

  abbrev consumed_store : String → Place → Store
  consumed_store credential_id p = record s {
    heap = set_cell p (consumed_as credential_id) s.heap;
    by_cred = put credential_id p s.by_cred;
  }

  consume_writes :
      (credential_id : String) (p : Place) (r : Session)
      → Usable p r
      → consume_by_token token credential_id h n s
        ≡ (ok (consumed_as credential_id r), suc n, consumed_store credential_id p)
  unfolding consume_by_token
  consume_writes credential_id p r (e, is_open, in_time) = rw (e, is_open, in_time) refl

  follow-consumed :
      (credential_id : String) (p : Place) (r : Session) (o : Option Place)
      → follow s.heap o ≡ some (p, r)
      → follow (set_cell p (consumed_as credential_id) s.heap) o
        ≡ some (p, consumed_as credential_id r)
  follow-consumed credential_id p r none e = ground arith
  follow-consumed credential_id p r (some q) e = elim (Option-cases (cell q s.heap)) [
    | inl missing ↦
        let nothing : Path (Option (Place × Session)) none (some (p, r)) =
          ap (place_and_session s.heap q) (sym missing) ∙ e in
        ground arith
    | inr (r', stored) ↦
        let same : Path (Option (Place × Session)) (some (q, r')) (some (p, r)) =
          ap (place_and_session s.heap q) (sym stored) ∙ e in
        let at_p : q ≡ p = ground arith in
        let is_r : r' ≡ r = ground arith in
        rw
          (
            at_p,
            cell-set_cell p (consumed_as credential_id) s.heap r (rw (sym at_p, sym is_r) stored),
          )
          refl
  ]

-- A token of the sessions in memory that was accepted for a credential is not accepted again,
-- for whichever credential.
pub memory_once :
    (token credential_id : String) (h : Host) (n : ℕ) (s : Store)
    → is_ok (consume_by_token token credential_id h n s).0 ≡ true
    → (other_id : String) (h' : Host) (m : ℕ)
    → is_ok (consume_by_token token other_id h' m (consume_by_token token credential_id h n s).2).0
      ≡ false
memory_once token credential_id h n s accepted other_id h' m = elim (consume_cases token h n s) [
  | inl refused ↦ let no = refused_now token h n s credential_id refused in ground arith
  | inr (p, r, usable) ↦ rw (consume_writes token h n s credential_id p r usable) (
      refused_now token h' m (consumed_store token h n s credential_id p) other_id (
        settled p (consumed_as credential_id r)
          (follow-consumed token h n s credential_id p r (lookup token s.by_token) usable.0) refl))
]

get_by_token-reads :
    (token : String) (h : Host) (n : ℕ) (s : Store) → (get_by_token token h n s).2 ≡ s
unfolding find
get_by_token-reads token h n s = elim (Option-cases (follow s.heap (lookup token s.by_token))) [
  | inl e ↦ rw e refl
  | inr (found, e) ↦ rw e refl
]

memory_refused :
    (token credential_id : String) (h : Host) (n : ℕ) (s : Store)
    → is_ok (consume_by_token token credential_id h n s).0 ≡ false
    → (consume_by_token token credential_id h n s).2 ≡ s
memory_refused token credential_id h n s refused = elim (consume_cases token h n s) [
  | inl why ↦ refused_leaves token h n s credential_id why
  | inr (p, r, usable) ↦
      let ok_now = consume_writes token h n s credential_id p r usable in ground arith
]

-- The sessions in memory keep the contract of the session store: looking a session up by its token
-- changes nothing, no token is accepted twice, and one that is refused leaves the sessions.
pub memory-Contract : Contract memory_sessions
memory-Contract = record {
  reads = get_by_token-reads;
  once = memory_once;
  refused = memory_refused;
}
