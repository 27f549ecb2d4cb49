-- ===== src/Sdk/Auth/Grants.antt =====
-- The tokens that `ValidateToken` of sdk-examples/go/auth/validator.go accepts.
use xmiete.Prelude.{
  String, Bool, true, false, ◌||◌, List, [], ◌∷◌, ◌==◌, arith, ◌≡◌, ◌≢◌, ◌↔◌, refl, sym, ap, ◌∙◌,
  inl, inr, any, All, eq_iff, Bool-cases,
}
use xmiete.Prelude.Int.{leb_ℤ}
use xmiete.Prelude.Results.{Result, good, bad, holds, not_differs, differs, not_equal}
use xmiete.Prelude.Split.{split_n, stop, after_prefix}
use xmiete.Calendar.{Time, unix}
use xmiete.Crypto.{Bytes}
use xmiete.Sdk.Auth.Text.{trim_right, fields}
use xmiete.Sdk.Auth.{
  Scopes, TokenClaims, holds_scope, has_scope, Validated, valid, invalid, ◌>>=◌, ◌>>◌, refuse_if,
  or_invalid, OidcTokenValidator, Payload, add_scope, add_scopes, check_scopes, trimmed, Reading,
  check_claims, check_jwt, parse_and_validate_claims, validate_token,
}

bind-valid :
    {R T : Type 0} (m : Validated R) (f : R → Validated T) (t : T)
    → (m >>= f) ≡ valid t
    → (r : R) × (m ≡ valid r) × (f r ≡ valid t)
bind-valid (valid r) f t e = (r, refl, e)
bind-valid (invalid x) f t e = ground arith

refuse_if-valid :
    {T : Type 0} (test : Bool) (message : String) (m : Validated T) (t : T)
    → (refuse_if test message >> m) ≡ valid t
    → (test ≡ false) × (m ≡ valid t)
refuse_if-valid true message m t e = ground arith
refuse_if-valid false message m t e = (refl, e)

or_invalid-valid :
    {R : Type 0} (prefix : String) (m : Result R) (r : R)
    → or_invalid prefix m ≡ valid r
    → m ≡ good r
or_invalid-valid prefix (good q) r e = ground arith
or_invalid-valid prefix (bad x) r e = ground arith

valid_injective : {R : Type 0} (r q : R) → valid r ≡ valid q → r ≡ q
valid_injective r q e = ground arith

-- The scopes of the claims are the words of the claim `scope`.
or_swap : (a b : Bool) → (a || b) ≡ (b || a)
or_swap a b = ground arith

or_absorb : (a b : Bool) → (b ≡ true → a ≡ true) → a ≡ (a || b)
or_absorb a true h = rw (h refl) refl
or_absorb true false h = refl
or_absorb false false h = refl

holds_scope-add :
    (x s : String) (scopes : Scopes)
    → holds_scope x (add_scope scopes s) ≡ (holds_scope x scopes || s == x)
holds_scope-add x s scopes = elim (Bool-cases (holds_scope s scopes)) [
  | inl there ↦ rw there (
      or_absorb (holds_scope x scopes) (s == x)
        (λ e. ap (λ t. holds_scope t scopes) (sym ((eq_iff s x).0 e)) ∙ there))
  | inr new ↦ rw new (or_swap (s == x) (holds_scope x scopes))
]

or_assoc : (a b c : Bool) → ((a || b) || c) ≡ (a || (b || c))
or_assoc a b c = ground arith

holds_scope-add_scopes :
    (x : String) (scopes : Scopes) (words : List String)
    → holds_scope x (add_scopes scopes words) ≡ (holds_scope x scopes || any (λ s. s == x) words)
holds_scope-add_scopes x scopes [] = or_absorb (holds_scope x scopes) false (λ e. cc)
holds_scope-add_scopes x scopes (w ∷ words) =
    holds_scope-add_scopes x (add_scope scopes w) words
    ∙ ap (λ b. b || any (λ s. s == x) words) (holds_scope-add x w scopes)
    ∙ or_assoc (holds_scope x scopes) (w == x) (any (λ s. s == x) words)

-- Each required scope is one of the words.
abbrev pub Covers : List String → List String → Type 0
Covers required words = All (λ scope. any (λ s. s == scope) words ≡ true) required

check_scopes-Covers :
    (c : TokenClaims) (words : List String)
    → c.scopes ≡ add_scopes [] words
    → (required : List String) → (check_scopes c required ≡ valid tt) ↔ Covers required words
unfolding check_scopes
check_scopes-Covers c words e [] = ((λ h. tt), (λ h. refl))
check_scopes-Covers c words e (scope ∷ required) =
    let has : has_scope c scope ≡ any (λ s. s == scope) words =
      ap (λ l. holds_scope scope l) e ∙ holds_scope-add_scopes scope [] words in
    let (onward, back) = check_scopes-Covers c words e required in
    elim (Bool-cases (has_scope c scope)) [
      | inl held ↦ ((λ h. (sym has ∙ held, onward (rw held at h))), (λ h. rw held (back h.1)))
      | inr lacks ↦
          ((λ h. absurd (refused lacks h)), (λ h. absurd (true_false (sym h.0 ∙ sym has ∙ lacks))))
    ]
  where
    true_false : true ≡ false → ⊥
    true_false p = cc

    refused : has_scope c scope ≡ false → check_scopes c (scope ∷ required) ≡ valid tt → ⊥
    refused l h = let shown = rw l at h in ground arith

module _ {A : Type 0} (R : Reading A) (v : OidcTokenValidator) where
  -- The claims of a subject, of the issuer that is expected, and not expired.
  abbrev pub IsCurrent : Payload A → Time → Type 0
  IsCurrent p now =
      (p.sub ≢ "")
      × (p.iss ≢ "")
      × (R.is_zero p.exp ≡ false)
      × (p.iss ≡ v.expected_issuer)
      × (leb_ℤ (unix now) (R.seconds p.exp) ≡ true)

  abbrev pub claims_of : Payload A → TokenClaims
  claims_of p = record {
    subject = p.sub;
    issuer = p.iss;
    scopes = add_scopes [] (fields p.scope);
    expires_at = R.seconds p.exp;
  }

  check_claims-IsCurrent :
      (p : Payload A) (now : Time) (claims : TokenClaims)
      → (check_claims R v p now ≡ valid claims) ↔ (IsCurrent p now × (claims ≡ claims_of p))
  unfolding check_claims
  check_claims-IsCurrent p now claims = (
    (λ e.
        let (sub, e1) = refuse_if-valid _ _ _ _ e in
        let (iss, e2) = refuse_if-valid _ _ _ _ e1 in
        let (exp, e3) = refuse_if-valid _ _ _ _ e2 in
        let (expected, e4) = refuse_if-valid _ _ _ _ e3 in
        let (current, e5) = refuse_if-valid _ _ _ _ e4 in
        (
          (
            differs p.sub "" sub,
            differs p.iss "" iss,
            exp,
            not_differs p.iss v.expected_issuer expected,
            holds (leb_ℤ (unix now) (R.seconds p.exp)) current,
          ),
          sym (valid_injective _ _ e5),
        )),
    (λ ((sub, iss, exp, expected, current), claims_are).
        let known = (eq_iff p.iss v.expected_issuer).1 expected in
        rw (not_equal p.sub "" sub, not_equal p.iss "" iss, exp, known, current)
          (ap valid (sym claims_are))),
  )

  -- A token of three parts, the second of which reads as such claims, whose words cover the scopes
  -- that are required; and what is answered is what the claims say.
  abbrev pub Grants : String → List String → Time → TokenClaims → Type 0
  Grants bearer required now claims =
      (head encoded signature : String) × (raw : Bytes) × (p : Payload A) × (split_n 3 stop
          (trimmed bearer (after_prefix "Bearer " bearer))
        ≡ head ∷ encoded ∷ signature ∷ [])
      × (R.unbase64 (trim_right b'=' encoded) ≡ good raw)
      × (R.payload raw ≡ good p)
      × IsCurrent p now
      × Covers required (fields p.scope)
      × (claims ≡ claims_of p)

  check_jwt-read :
      (parts : List String) (now : Time) (claims : TokenClaims)
      → check_jwt R v parts now ≡ valid claims
      → (head encoded signature : String) × (raw : Bytes) × (p : Payload A) × (parts
          ≡ head ∷ encoded ∷ signature ∷ [])
        × (R.unbase64 (trim_right b'=' encoded) ≡ good raw)
        × (R.payload raw ≡ good p)
        × IsCurrent p now
        × (claims ≡ claims_of p)
  check_jwt-read (head ∷ encoded ∷ signature ∷ []) now claims e =
      let (raw, decoded, e1) = bind-valid _ _ _ e in
      let (p, parsed, e2) = bind-valid _ _ _ e1 in
      let (current, are) = (check_claims-IsCurrent p now claims).0 e2 in
      (
        head,
        encoded,
        signature,
        raw,
        p,
        refl,
        or_invalid-valid _ _ _ decoded,
        or_invalid-valid _ _ _ parsed,
        current,
        are,
      )
  check_jwt-read [] now claims e = ground arith
  check_jwt-read (a ∷ []) now claims e = ground arith
  check_jwt-read (a ∷ b ∷ []) now claims e = ground arith
  check_jwt-read (a ∷ b ∷ c ∷ d ∷ rest) now claims e = ground arith

  -- `ValidateToken` returns claims exactly where the token, after "Bearer " if it begins so, grants
  -- them: its claims are complete, of the expected issuer, not expired, and cover the required
  -- scopes.
  pub validate_token_iff :
      (bearer : String) (required : List String) (now : Time) (claims : TokenClaims)
      → (validate_token R v bearer required now ≡ valid claims) ↔ Grants bearer required now claims
  unfolding validate_token parse_and_validate_claims
  validate_token_iff bearer required now claims =
      let parts = split_n 3 stop (trimmed bearer (after_prefix "Bearer " bearer)) in
      (
        (λ e.
            let (read, checked, e1) = bind-valid (check_jwt R v parts now) _ claims e in
            let (_, held, e2) = bind-valid (check_scopes read required) _ claims e1 in
            let same = valid_injective read claims e2 in
            let (head, encoded, signature, raw, p, cut, decoded, parsed, current, are) =
              check_jwt-read parts now read checked in
            (
              head,
              encoded,
              signature,
              raw,
              p,
              cut,
              decoded,
              parsed,
              current,
              (check_scopes-Covers read (fields p.scope) (ap (λ (c : TokenClaims). c.scopes) are)
                    required).0
                  held,
              sym same ∙ are,
            )),
        (λ (head, encoded, signature, raw, p, cut, decoded, parsed, current, covers, are).
            let checked = (check_claims-IsCurrent p now claims).1 (current, are) in
            let held =
              (check_scopes-Covers claims (fields p.scope) (ap (λ (c : TokenClaims). c.scopes) are)
                  required).1
                covers in
            rw (cut, decoded, parsed, checked, held) refl),
      )
