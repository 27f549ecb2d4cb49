-- ===== src/Issuance/Postgres/Rows.antt =====
-- Rows of issuance_sessions that are selected after an update.
use xmiete.Prelude.{◌≡◌, refl, Bool, none, some, [], ◌∷◌, arith, if◌then◌else◌}
use xmiete.Issuance.Postgres.{SessionRow, Sessions, select_row, update_sessions}

module _ (test set_test : SessionRow → Bool) (set : SessionRow → SessionRow) where
  -- An update that does not touch the column of the test.
  pub select_row-update_sessions :
      ((r : SessionRow) → test (set r) ≡ test r)
      → (rows : Sessions)
      → select_row test (update_sessions set_test set rows) ≡ elim (select_row test rows) [
        | none ↦ none
        | some r ↦ some (if set_test r then set r else r)
      ]
  unfolding select_row update_sessions
  select_row-update_sessions keeps [] = refl
  select_row-update_sessions keeps (row ∷ rows) =
      ground (arith, keeps row, select_row-update_sessions keeps rows)
