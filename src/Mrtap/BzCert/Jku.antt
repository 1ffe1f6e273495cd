-- ===== src/Mrtap/BzCert/Jku.antt =====
-- `ExtractJwksUrlPattern` of bzerolib/mrtap/util/util.go: the pattern and the email of a service
-- account's key URL.
use Prim.Native.Char.{Char, code}
use Prim.Native.String.{◌++◌}
use bzero.Shared.{
  ℕ, Option, none, some, String, List, [], ◌∷◌, ◌==◌, leb, not, if◌then◌else◌, length,
}

cut : ℕ → Char → List String → List String
cut sep c [] = []
cut sep c (p ∷ ps) = if code c == sep then "" ∷ p ∷ ps else (String.◌∷◌ c p) ∷ ps

-- `strings.Split` at one character: the pieces, at least one.
unfoldable pub split : ℕ → String → List String
unfolding cut
split sep String.[] = "" ∷ []
split sep (String.◌∷◌ c s) = cut sep c (split sep s)

-- `strings.Join`
unfoldable pub join : String → List String → String
join sep [] = ""
join sep (p ∷ []) = p
join sep (p ∷ q ∷ ps) = p ++ sep ++ join sep (q ∷ ps)

-- `xs[len(xs)-1]` and `xs[0:len(xs)-1]`, of a list that is not empty.
unfoldable pub last_piece : List String → String
last_piece [] = ""
last_piece (p ∷ []) = p
last_piece (p ∷ q ∷ ps) = last_piece (q ∷ ps)

unfoldable pub but_last : List String → List String
but_last [] = []
but_last (p ∷ []) = []
but_last (p ∷ q ∷ ps) = p ∷ but_last (q ∷ ps)

-- The second of two pieces.
unfoldable pub domain_of : List String → Option String
domain_of (name ∷ domain ∷ []) = some domain
domain_of _ = none

-- `none` is an error: not exactly one @ in the text, no /, or no @ in what follows the last /.
unfoldable pub extract_jwks_url_pattern : String → Option (String × String)
extract_jwks_url_pattern jku =
    let tokens = split b'/' jku in
    let email = last_piece tokens in
    if not (length (split b'@' jku) == 2)
    then none
    else if leb (length tokens) 1
    then none
    else elim (domain_of (split b'@' email)) [
      | none ↦ none
      | some domain ↦ some (join "/" (but_last tokens) ++ "/*" ++ domain, email)
    ]
