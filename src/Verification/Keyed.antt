-- ===== src/Verification/Keyed.antt =====
-- The map of sessions of server/internal/verification/vp.go.
use xmiete.Prelude.{
  ◌≡◌, refl, String, none, some, List, [], ◌∷◌, ◌==◌, eq_iff, arith, lookup, erase, put, Bool-cases,
  inl, inr,
}
use xmiete.Verification
use xmiete.Verification.{VpSession, VpSessions}

module _ {V : Type 0} where
  pub lookup-erase : (k : String) (m : List (String × V)) → lookup k (erase k m) ≡ none
  unfolding lookup erase
  lookup-erase k [] = refl
  lookup-erase k ((j, v) ∷ m) = ground (arith, lookup-erase k m)

  lookup_of_erased :
      (j k : String) (m : List (String × V)) (v : V)
      → lookup j (erase k m) ≡ some v
      → lookup j m ≡ some v
  unfolding lookup erase
  lookup_of_erased j k [] v e = e
  lookup_of_erased j k ((i, u) ∷ m) v e =
      ground (arith, eq_iff i j, eq_iff i k, lookup-erase j m, lookup_of_erased j k m v)

-- Each session stands under its identifier.
pub record IsKeyed (sessions : VpSessions) : Type 0 where
  pub keyed :
      (id : String) (session : VpSession)
      → Verification.get_by_id id sessions ≡ some session
      → session.id ≡ id

pub empty-IsKeyed : IsKeyed []
unfolding lookup
empty-IsKeyed = record { keyed = λ id session e. ground arith }

pub delete-IsKeyed :
    (id : String) (sessions : VpSessions)
    → IsKeyed sessions
    → IsKeyed (Verification.delete id sessions)
delete-IsKeyed id sessions k = record {
  keyed = λ j session e. k.keyed j session (lookup_of_erased j id sessions session e);
}

pub create-IsKeyed :
    (session : VpSession) (sessions : VpSessions)
    → IsKeyed sessions
    → IsKeyed (Verification.create session sessions)
unfolding lookup put
create-IsKeyed session sessions k = record {
  keyed = λ j found e. elim (Bool-cases (session.id == j)) [
    | inl here ↦ ground (arith, eq_iff session.id j)
    | inr elsewhere ↦ k.keyed j found (lookup_of_erased j session.id sessions found (ground arith))
  ];
}
