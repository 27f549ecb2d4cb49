-- ===== src/Prelude/Split.antt =====
-- Texts cut at a separator (strings.Split), joined again (strings.Join), and searched for a sign.
-- A sign is given by its code.
use Prim.Native.Char.{Char, code}
use Prim.Native.String.{String, ◌++◌}
use Prim.Native.String.append
use Prim.Native.Nat.{ℕ, zero, suc}
use mathlib.Core.Path.{◌≡◌, refl, sym, ap, ◌∙◌}
use mathlib.Core.Bool.{Bool, false, ◌||◌}
use mathlib.Core.Option.{Option, none, some}
use mathlib.Core.List.{List, [], ◌∷◌}
use text.Mathlib.TextLemmas.{append-nil}
use native.Mathlib.Omega.{arith}
use xmiete.Prelude.Tests.{eqb, if◌then◌else◌}

abbrev pub has_sign : ℕ → String → Bool
has_sign sign String.[] = false
has_sign sign (String.◌∷◌ c s) = eqb (code c) sign || has_sign sign s

abbrev attach : Char → List String → List String
attach c [] = (String.◌∷◌ c String.[]) ∷ []
attach c (q ∷ qs) = (String.◌∷◌ c q) ∷ qs

unfoldable pub split : ℕ → String → List String
split sign String.[] = "" ∷ []
split sign (String.◌∷◌ c s) =
    let rest = split sign s in if eqb (code c) sign then "" ∷ rest else attach c rest

-- strings.SplitN: at most so many parts, the last of which is the rest.
unfoldable pub split_n : ℕ → ℕ → String → List String
split_n zero sign s = []
split_n (suc zero) sign s = s ∷ []
split_n (suc (suc n)) sign String.[] = "" ∷ []
split_n (suc (suc n)) sign (String.◌∷◌ c s) =
    let next = split_n (suc n) sign s in
    let same = split_n (suc (suc n)) sign s in
    if eqb (code c) sign then "" ∷ next else attach c same

-- strings.HasPrefix and strings.TrimPrefix: what follows the prefix, if the text has it.
unfoldable pub after_prefix : String → String → Option String
after_prefix String.[] s = some s
after_prefix (String.◌∷◌ p ps) String.[] = none
after_prefix (String.◌∷◌ p ps) (String.◌∷◌ c s) =
    let rest = after_prefix ps s in if eqb (code p) (code c) then rest else none

-- strings.Join
abbrev pub join : String → List String → String
join separator [] = ""
join separator (s ∷ []) = s
join separator (s ∷ t ∷ ts) = s ++ (separator ++ join separator (t ∷ ts))

-- A part without the sign is cut off whole.
split-part :
    (sign : ℕ) (p t : String) (qs : List String)
    → has_sign sign p ≡ false
    → split sign t ≡ "" ∷ qs
    → split sign (p ++ t) ≡ p ∷ qs
unfolding split
split-part sign String.[] t qs free e = rw (append.nil t) e
split-part sign (String.◌∷◌ c p) t qs free e =
    rw (append.cons c p t, split-part sign p t qs (ground arith) e) (ground arith)

abbrev pub tilde : ℕ
tilde = b'~'

-- A part, a tilde and a rest.
pub split-tilde :
    (p t : String) → has_sign tilde p ≡ false → split tilde (p ++ ("~" ++ t)) ≡ p ∷ split tilde t
unfolding split
split-tilde p t free =
    split-part tilde p ("~" ++ t) (split tilde t) free (rw (append.cons _ "" t, append.nil t) refl)

pub split_whole : (p : String) → has_sign tilde p ≡ false → split tilde p ≡ p ∷ []
unfolding split
split_whole p free = ap (split tilde) (sym (append-nil p)) ∙ split-part tilde p "" [] free refl

abbrev pub stop : ℕ
stop = b'.'

split_n-part :
    (n sign : ℕ) (p t : String) (qs : List String)
    → has_sign sign p ≡ false
    → split_n (suc (suc n)) sign t ≡ "" ∷ qs
    → split_n (suc (suc n)) sign (p ++ t) ≡ p ∷ qs
unfolding split_n
split_n-part n sign String.[] t qs free e = rw (append.nil t) e
split_n-part n sign (String.◌∷◌ c p) t qs free e =
    rw (append.cons c p t, split_n-part n sign p t qs (ground arith) e) (ground arith)

-- A part, a full stop and a rest.
pub split_n-stop :
    (n : ℕ) (p t : String)
    → has_sign stop p ≡ false
    → split_n (suc (suc n)) stop (p ++ ("." ++ t)) ≡ p ∷ split_n (suc n) stop t
unfolding split_n
split_n-stop n p t free =
    split_n-part n stop p ("." ++ t) (split_n (suc n) stop t) free
      (rw (append.cons _ "" t, append.nil t) refl)
