-- ===== src/Issuance/StatusList/Revoked.antt =====
-- The list that server/internal/issuance/statuslist.go makes of the sessions in PostgreSQL
-- (server/internal/db/session_store.go).
use xmiete.Prelude.{
  ℕ, Bool, true, false, ◌&&◌, Option, none, some, [], ◌∷◌, ◌≡◌, refl, ◌∙◌, if◌then◌else◌, any, ltb,
  Bool-cases, Option-cases, inl, inr,
}
use xmiete.Prelude.Int.{ℤ}
use xmiete.Issuance.Postgres.{SessionRow, Sessions, is_revoked, revoked_indices}
use xmiete.Issuance.StatusList.{bitstring, status_list_size}
use xmiete.Issuance.StatusList.Bits.{is_index, bit_at, bitstring-listed}

-- A revoked session has the index.
abbrev pub is_slot : ℕ → Option ℤ → Bool
is_slot j none = false
is_slot j (some i) = is_index j i

abbrev pub is_revoked_slot : ℕ → SessionRow → Bool
is_revoked_slot j row = is_revoked row.state && is_slot j row.status_list_index

any-revoked_indices :
    (j : ℕ) (rows : Sessions)
    → any (is_index j) (revoked_indices rows) ≡ any (is_revoked_slot j) rows
unfolding revoked_indices
any-revoked_indices j [] = refl
any-revoked_indices j (row ∷ rows) =
    let rest = any-revoked_indices j rows in
    elim (Bool-cases (is_revoked row.state)) [
      | inr kept ↦ rw kept rest
      | inl gone ↦ elim (Option-cases row.status_list_index) [
        | inl absent ↦ rw (gone, absent) rest
        | inr (i, given) ↦ rw (gone, given, rest) refl
      ]
    ]

-- The bit of an index within the list is set if a revoked session has that index, and is not set
-- otherwise.
pub revoked-bit :
    (j : ℕ) (rows : Sessions)
    → ltb j status_list_size ≡ true
    → bit_at j (bitstring (revoked_indices rows)) ≡ (if any (is_revoked_slot j) rows then 1 else 0)
revoked-bit j rows small =
    bitstring-listed (revoked_indices rows) j ∙ rw (small, any-revoked_indices j rows) refl
