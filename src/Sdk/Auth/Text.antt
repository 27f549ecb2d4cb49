-- ===== src/Sdk/Auth/Text.antt =====
-- strings.TrimSuffix, TrimRight and Fields, as sdk-examples/go/auth/validator.go uses them.
use Prim.Native.Char.{code}
use xmiete.Prelude.{ℕ, String, Bool, ◌&&◌, ◌||◌, List, [], ◌∷◌, ◌==◌, eqb, leb, if◌then◌else◌}

unfoldable pub trim_suffix : String → String → String
trim_suffix suffix String.[] = ""
trim_suffix suffix (String.◌∷◌ c s) =
    let rest = trim_suffix suffix s in if (String.◌∷◌ c s) == suffix then "" else String.◌∷◌ c rest

-- strings.TrimRight for one sign: the sign goes where nothing is left after it.
unfoldable pub trim_right : ℕ → String → String
trim_right sign String.[] = ""
trim_right sign (String.◌∷◌ c s) =
    let rest = trim_right sign s in
    if eqb (code c) sign && rest == "" then "" else String.◌∷◌ c rest

-- unicode.IsSpace
abbrev pub is_space : ℕ → Bool
is_space c =
    (leb 9 c && leb c 13)
    || (eqb c 0x20
        || (eqb c 0x85
            || (eqb c 0xa0
                || (eqb c 0x1680
                    || ((leb 0x2000 c && leb c 0x200a)
                        || (eqb c 0x2028
                            || (eqb c 0x2029
                                || (eqb c 0x202f || (eqb c 0x205f || eqb c 0x3000)))))))))

abbrev pub with_word : String → List String → List String
with_word word words = if word == "" then words else word ∷ words

-- The word that a text begins with, which is empty before a space, and the words after it.
unfoldable pub words_of : String → String × List String
words_of String.[] = ("", [])
words_of (String.◌∷◌ c s) =
    let (word, words) = words_of s in
    if is_space (code c) then ("", with_word word words) else (String.◌∷◌ c word, words)

unfoldable pub fields : String → List String
unfolding words_of
fields s = let (word, words) = words_of s in with_word word words
