-- ===== src/Host.antt =====
-- What the server takes from outside the repository: fresh identifiers (google/uuid), the clock,
-- the failures of the database (pgx), and the JSON form of a document. An action runs on a state
-- `S` and a count of the outside calls made so far; a nil dereference is the outcome `panicked`.
use xmiete.Prelude.{ℕ, suc, ◌≡◌, String, Bool, true, false, Option, none, some, List, if◌then◌else◌}
use xmiete.Calendar.{Time}

-- The answers to the n-th outside call.
pub record Host : Type 0 where
  pub uuid : ℕ → String
  pub clock : ℕ → Time
  pub fails : ℕ → Bool
  -- rand.Read of 16 bytes, `none` if it fails
  pub random : ℕ → Option (List ℕ)

-- encoding/json on the documents `D`, with `B` for the bytes; a text that was written reads back.
pub record Codec (D B : Type 0) : Type 0 where
  pub marshal : D → Option B
  pub unmarshal : B → Option D
  pub unmarshal-marshal : (d : D) (b : B) → marshal d ≡ some b → unmarshal b ≡ some d

pub data Outcome (R : Type 0) : Type 0 where
  ok : R → Outcome R
  not_found failed panicked : Outcome R

abbrev pub is_ok : {R : Type 0} → Outcome R → Bool
is_ok (ok r) = true
is_ok _ = false

-- What an absent value leads to.
abbrev pub or_else : {R : Type 0} → Outcome R → Option R → Outcome R
or_else e none = e
or_else e (some r) = ok r

abbrev pub Io : Type 0 → Type 0 → Type 0
Io S R = Host → ℕ → S → Outcome R × ℕ × S

module _ {S R T : Type 0} where
  -- `abbrev`, so that a block computes as far as its outcomes are known.
  abbrev pub continue : Outcome R → (R → Io S T) → Io S T
  continue (ok r) f h n s = f r h n s
  continue not_found f h n s = (not_found, n, s)
  continue failed f h n s = (failed, n, s)
  continue panicked f h n s = (panicked, n, s)

  infixl 5 ◌>>=◌
  abbrev pub ◌>>=◌ : Io S R → (R → Io S T) → Io S T
  ◌>>=◌ m f h n s = let (r, n', s') = m h n s in continue r f h n' s'

infixl 5 ◌>>◌
abbrev pub ◌>>◌ : {S T : Type 0} → Io S (Unit {0}) → Io S T → Io S T
m >> k = m >>= λ _. k

module _ {S : Type 0} where
  abbrev pub uuid_new : Io S String
  uuid_new h n s = (ok (h.uuid n), suc n, s)

  abbrev pub time_now : Io S Time
  time_now h n s = (ok (h.clock n), suc n, s)

  -- One statement sent to the database.
  abbrev pub statement : Io S (Unit {0})
  statement h n s = (if h.fails n then failed else ok tt, suc n, s)

  abbrev pub modify : (S → S) → Io S (Unit {0})
  modify f h n s = (ok tt, n, f s)

module _ {S R : Type 0} where
  abbrev pub pure : R → Io S R
  pure r h n s = (ok r, n, s)

  abbrev pub throw : Outcome R → Io S R
  throw r h n s = (r, n, s)

  abbrev pub gets : (S → Outcome R) → Io S R
  gets f h n s = (f s, n, s)

  abbrev settle : Outcome R → S → S → Host → ℕ → Outcome R × ℕ × S
  settle (ok r) before s h n = if h.fails n then (failed, suc n, before) else (ok r, suc n, s)
  settle not_found before s h n = (not_found, n, before)
  settle failed before s h n = (failed, n, before)
  settle panicked before s h n = (panicked, n, before)

  -- BEGIN, the body, COMMIT; what does not reach the commit is rolled back, also by a panic.
  abbrev pub transaction : Io S R → Io S R
  transaction m h n s =
      if h.fails n
      then (failed, suc n, s)
      else (let (r, n', s') = m h (suc n) s in settle r s s' h n')
