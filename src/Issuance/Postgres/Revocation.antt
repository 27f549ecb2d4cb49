-- ===== src/Issuance/Postgres/Revocation.antt =====
-- The revocation of credentials in server/internal/db/session_store.go.
use mathlib.Core.List.{Memᴰ}
use mathlib.Core.List.Memᴰ
use mathlib.Core.Path.{subst}
use xmiete.Prelude.{
  ℕ, ◌≡◌, refl, String, Bool, true, false, ◌&&◌, ◌||◌, Option, none, some, [], ◌∷◌, ◌==◌, eq_iff,
  arith, if◌then◌else◌,
}
use xmiete.Prelude.Int.{ℤ}
use xmiete.Host.{Host, ok, is_ok}
use xmiete.Issuance.Session.{consumed, revoked}
use xmiete.Issuance.Postgres.{
  SessionRow, Sessions, holds, is_consumed, is_revoked, select_row, update_sessions,
  revoke_by_deposit_id, credential_status, revoked_indices,
}
use xmiete.Issuance.Postgres.Rows.{select_row-update_sessions}

abbrev revoked_row : SessionRow → SessionRow
revoked_row r = record r { state = revoked }

indices_cons :
    (i : ℤ) (x : SessionRow) (rows : Sessions)
    → Memᴰ i (revoked_indices rows)
    → Memᴰ i (revoked_indices (x ∷ rows))
unfolding revoked_indices
indices_cons i x rows m = cons (is_revoked x.state) x.status_list_index
  where
    cons :
        (b : Bool) (o : Option ℤ)
        → Memᴰ i (
            if b
            then elim o [ none ↦ revoked_indices rows | some j ↦ j ∷ revoked_indices rows ]
            else revoked_indices rows)
    cons true none = m
    cons true (some j) = Memᴰ.tail m
    cons false o = m

module _ (h : Host) (n : ℕ) (rows : Sessions) (deposit_id : String)
    (done : is_ok (revoke_by_deposit_id deposit_id h n rows).0 ≡ true) where
  revoke_writes :
      (revoke_by_deposit_id deposit_id h n rows).2
      ≡ update_sessions (λ r. r.deposit_id == deposit_id && is_consumed r.state) revoked_row rows
  unfolding revoke_by_deposit_id
  revoke_writes = ground arith

  module _ (credential_id : String) (r : SessionRow)
      (issued : select_row (λ x. holds x.credential_id credential_id) rows ≡ some r) (h' : Host)
      (m : ℕ) (up : h'.fails m ≡ false) where
    -- After the sessions of a deposit were revoked, and if the database answers, the status of a
    -- credential is "revoked" if it
    -- was so before or if it was issued for that deposit and is CONSUMED, and "active" otherwise.
    pub revoke_credential_status :
        (credential_status credential_id h' m (revoke_by_deposit_id deposit_id h n rows).2).0
        ≡ ok (is_revoked r.state || (r.deposit_id == deposit_id && is_consumed r.state))
    unfolding credential_status
    revoke_credential_status =
        let after =
          select_row-update_sessions (λ x. holds x.credential_id credential_id)
            (λ x. x.deposit_id == deposit_id && is_consumed x.state) revoked_row (λ x. refl) rows in
        rw revoke_writes (ground (arith, after))

  module _ (row : SessionRow) (i : ℤ) (listed : row.status_list_index ≡ some i)
      (deposit : row.deposit_id ≡ deposit_id) (issued : row.state ≡ consumed) where
    abbrev after_revocation : Sessions → Sessions
    after_revocation =
        update_sessions (λ r. r.deposit_id == deposit_id && is_consumed r.state) revoked_row

    lists_first :
        (rows : Sessions)
        → revoked_indices (after_revocation (row ∷ rows))
          ≡ i ∷ revoked_indices (after_revocation rows)
    unfolding update_sessions revoked_indices
    lists_first rows = ground (arith, eq_iff row.deposit_id deposit_id)

    lists : (rows : Sessions) → Memᴰ row rows → Memᴰ i (revoked_indices (after_revocation rows))
    unfolding update_sessions
    lists [] m = absurd (Memᴰ.not-nil m)
    lists (x ∷ rows) (Memᴰ.head e) =
        subst (λ y. Memᴰ i (revoked_indices (after_revocation (y ∷ rows)))) e
          (rw (lists_first rows) (Memᴰ.head refl))
    lists (x ∷ rows) (Memᴰ.tail m) =
        indices_cons i
          (if x.deposit_id == deposit_id && is_consumed x.state then revoked_row x else x)
          (after_revocation rows) (lists rows m)

    -- After the sessions of a deposit were revoked, the status list has the index of each session
    -- that was CONSUMED for it.
    pub revoke_lists :
        Memᴰ row rows → Memᴰ i (revoked_indices (revoke_by_deposit_id deposit_id h n rows).2)
    revoke_lists m = rw revoke_writes (lists rows m)
