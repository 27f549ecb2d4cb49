-- ===== src/Issuance/Memory/Revocation.antt =====
-- The revocation of the credentials of a deposit, in memory (server/internal/issuance/session.go).
use xmiete.Prelude.{
  ℕ, zero, suc, String, false, ◌||◌, some, List, [], ◌∷◌, ◌==◌, eqb, ◌≡◌, refl, ap, ◌∙◌, arith,
  lookup, Bool-cases, inl, inr,
}
use xmiete.Host.{Host, ok}
use xmiete.Issuance.Session.{Session}
use xmiete.Issuance.Postgres.{is_revoked}
use xmiete.Issuance.Memory.{
  Place, Index, Store, cell, set_cell, revoked_for, revoke_cells, revoke_by_deposit_id,
  credential_status,
}
use xmiete.Issuance.Memory.Tokens.{cell-set_cell}

cell-elsewhere :
    (p q : Place) (f : Session → Session) (heap : List Session)
    → eqb q p ≡ false
    → cell p (set_cell q f heap) ≡ cell p heap
unfolding set_cell
cell-elsewhere p q f [] e = refl
cell-elsewhere zero zero f (s ∷ heap) e = ground arith
cell-elsewhere zero (suc q) f (s ∷ heap) e = refl
cell-elsewhere (suc p) zero f (s ∷ heap) e = refl
cell-elsewhere (suc p) (suc q) f (s ∷ heap) e = cell-elsewhere p q f heap (ground arith)

revoked_twice :
    (deposit_id : String) (s : Session)
    → revoked_for deposit_id (revoked_for deposit_id s) ≡ revoked_for deposit_id s
revoked_twice deposit_id s = elim (Bool-cases (s.deposit_id == deposit_id)) [
  | inl same ↦ rw (same, same) refl
  | inr other ↦ rw (other, other) refl
]

revoked_for-state :
    (deposit_id : String) (s : Session)
    → is_revoked (revoked_for deposit_id s).state
      ≡ (s.deposit_id == deposit_id || is_revoked s.state)
revoked_for-state deposit_id s = elim (Bool-cases (s.deposit_id == deposit_id)) [
  | inl same ↦ rw same refl
  | inr other ↦ rw other refl
]

module _ (deposit_id : String) (p : Place) (r : Session) where
  -- The loop leaves a session that it has revoked.
  revoke_cells-keeps :
      (index : Index) (heap : List Session)
      → cell p heap ≡ some (revoked_for deposit_id r)
      → cell p (revoke_cells deposit_id index heap) ≡ some (revoked_for deposit_id r)
  unfolding revoke_cells
  revoke_cells-keeps [] heap e = e
  revoke_cells-keeps ((_, q) ∷ index) heap e = elim (Bool-cases (eqb q p)) [
    | inl here ↦
        let same : q ≡ p = ground arith in
        revoke_cells-keeps index (set_cell q (revoked_for deposit_id) heap) (
          rw same (
            cell-set_cell p (revoked_for deposit_id) heap (revoked_for deposit_id r) e
            ∙ ap some (revoked_twice deposit_id r)))
    | inr elsewhere ↦
        revoke_cells-keeps index (set_cell q (revoked_for deposit_id) heap)
          (cell-elsewhere p q (revoked_for deposit_id) heap elsewhere ∙ e)
  ]

  -- The loop comes to each session of the map.
  revoke_cells-reaches :
      (credential_id : String) (index : Index) (heap : List Session)
      → lookup credential_id index ≡ some p
      → cell p heap ≡ some r
      → cell p (revoke_cells deposit_id index heap) ≡ some (revoked_for deposit_id r)
  unfolding revoke_cells lookup
  revoke_cells-reaches credential_id [] heap found e = ground arith
  revoke_cells-reaches credential_id ((key, q) ∷ index) heap found e = elim (Bool-cases (eqb q p)) [
    | inl here ↦
        let same : q ≡ p = ground arith in
        revoke_cells-keeps index (set_cell q (revoked_for deposit_id) heap)
          (rw same (cell-set_cell p (revoked_for deposit_id) heap r e))
    | inr elsewhere ↦
        revoke_cells-reaches credential_id index (set_cell q (revoked_for deposit_id) heap)
          (later credential_id key q index elsewhere found)
          (cell-elsewhere p q (revoked_for deposit_id) heap elsewhere ∙ e)
  ]
    where
      later :
          (credential_id key : String) (q : Place) (index : Index)
          → eqb q p ≡ false
          → lookup credential_id ((key, q) ∷ index) ≡ some p
          → lookup credential_id index ≡ some p
      later credential_id key q index elsewhere found = ground arith

-- After the credentials of a deposit were revoked, the status of a credential in memory is "revoked"
-- if it was so before or if it was issued for that deposit, and "active" otherwise.
pub memory_revoke_status :
    (deposit_id credential_id : String) (s : Store) (p : Place) (r : Session)
    → lookup credential_id s.by_cred ≡ some p
    → cell p s.heap ≡ some r
    → (h h' : Host) (n m : ℕ)
    → (credential_status credential_id h' m (revoke_by_deposit_id deposit_id h n s).2).0
      ≡ ok (r.deposit_id == deposit_id || is_revoked r.state)
unfolding credential_status revoke_by_deposit_id
memory_revoke_status deposit_id credential_id s p r found stored h h' n m =
    let reached = revoke_cells-reaches deposit_id p r credential_id s.by_cred s.heap found stored in
    rw (found, reached) (ap ok (revoked_for-state deposit_id r))
