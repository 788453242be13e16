-- ===== src/Scan/EnvFile/Quoted.antt =====
-- Quoted values: what is escaped is read back (envfile.go, `closingQuote` and `unescape`).
use labview.Common.{
  ℕ, ◌≡◌, refl, false, ◌||◌, List, [], ◌∷◌, ◌++◌, some, arith, ◌==◌, if◌then◌else◌, append_assoc,
}
use labview.Common.Text.{Text, has_byte}
use labview.Scan.EnvFile.{closing_quote, reveal, unescape_from, unescape, quoted, env_value}

-- A byte as it is written between double quotes on one line.
unfoldable pub hide : ℕ → Text
hide c =
    if (c == b'\\') || (c == b'"')
    then b'\\' ∷ c ∷ []
    else if c == 10
    then b'\\' ∷ b'n' ∷ []
    else if c == 13
    then b'\\' ∷ b'r' ∷ []
    else c ∷ []

unfoldable pub escape : Text → Text
escape [] = []
escape (c ∷ s) = hide c ++ escape s

closing_quote-hide :
    (c : ℕ) (s body : Text)
    → closing_quote b'"' false s ≡ some body
    → closing_quote b'"' false (hide c ++ s) ≡ some (hide c ++ body)
unfolding closing_quote hide
closing_quote-hide c s body h = ground arith

closing_quote_here : (rest : Text) → closing_quote b'"' false (b'"' ∷ rest) ≡ some []
unfolding closing_quote
closing_quote_here rest = refl

closing_quote-escape :
    (v rest : Text) → closing_quote b'"' false (escape v ++ b'"' ∷ rest) ≡ some (escape v)
unfolding escape
closing_quote-escape [] rest = closing_quote_here rest
closing_quote-escape (c ∷ v) rest =
    rw (append_assoc (hide c) (escape v) (b'"' ∷ rest))
      (closing_quote-hide c (escape v ++ b'"' ∷ rest) (escape v) (closing_quote-escape v rest))

unescape_from-hide :
    (c : ℕ) (s : Text) → unescape_from false (hide c ++ s) ≡ c ∷ unescape_from false s
unfolding unescape_from hide reveal
unescape_from-hide c s = ground arith

unescape_from_nil : unescape_from false [] ≡ []
unfolding unescape_from
unescape_from_nil = refl

unescape_from-escape : (v : Text) → unescape_from false (escape v) ≡ v
unfolding escape
unescape_from-escape [] = unescape_from_nil
unescape_from-escape (c ∷ v) = rw (unescape_from-hide c (escape v), unescape_from-escape v) refl

unescape_plain : (s : Text) → has_byte b'\\' s ≡ false → unescape_from false s ≡ s
unfolding unescape_from has_byte
unescape_plain [] h = refl
unescape_plain (x ∷ s) h = ground (arith, unescape_plain s)

pub unescape-escape : (v : Text) → unescape (escape v) ≡ v
unfolding unescape
unescape-escape v = ground (arith, unescape_plain (escape v), unescape_from-escape v)

quoted-escape :
    (v rest : Text) (following : List Text)
    → quoted b'"' (escape v ++ b'"' ∷ rest) following ≡ some (escape v, 0)
unfolding quoted
quoted-escape v rest [] = rw (quoted, closing_quote-escape v rest) refl
quoted-escape v rest (line ∷ following) = rw (quoted, closing_quote-escape v rest) refl

-- A quoted value on one line is read as it was before it was escaped.
pub env_value-escape :
    (v rest : Text) (following : List Text)
    → env_value (b'"' ∷ (escape v ++ b'"' ∷ rest)) following ≡ (v, 0)
unfolding env_value
env_value-escape v rest following = rw (quoted-escape v rest following, unescape-escape v) refl
