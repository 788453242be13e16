-- ===== src/Secrets.antt =====
-- internal/secrets/secrets.go: the mask, and the redaction of passwords in URIs.
--
-- The loop over `i` is a recursion over what is left of the text, on fuel: the length of the text.

pub mod Redacted
pub mod Masked
pub mod Idempotent
mod Tests
use labview.Common.{
  ℕ, zero, suc, Bool, true, false, ◌||◌, List, [], ◌∷◌, ◌++◌, Option, none, some, ◌==◌,
  if◌then◌else◌, length, drop,
}
use labview.Common.Text.{Text, codes, is_empty, has_prefix, cut_byte, before}

abbrev pub mask : Text
mask = codes "********"

unfoldable pub mask_value : Text → Text
mask_value v = if is_empty v then [] else mask

-- `strings.Index(s, "://")`, as the text before and the text behind.
unfoldable pub cut_mark : Text → Option (Text × Text)
cut_mark [] = none
cut_mark (x ∷ xs) =
    if has_prefix (x ∷ xs) (codes "://")
    then some ([], drop 2 xs)
    else elim (cut_mark xs) [ none ↦ none | some (a, b) ↦ some (x ∷ a, b) ]

abbrev pub ends_authority : ℕ → Bool
ends_authority r =
    (r == b'/')
    || (r == b'?')
    || (r == b'#')
    || (r == b' ')
    || (r == 9)
    || (r == 10)
    || (r == b'"')
    || (r == 39)
    || (r == b',')
    || (r == b')')
    || (r == b'>')

-- what is left from the first byte that ends the authority
unfoldable pub from_end : Text → Text
from_end [] = []
from_end (x ∷ xs) = if ends_authority x then x ∷ xs else from_end xs

-- `strings.LastIndex(…, "@")`, as the text before and the text behind.
unfoldable pub cut_last : ℕ → Text → Option (Text × Text)
cut_last c [] = none
cut_last c (x ∷ xs) = elim (cut_last c xs) [
  | some (a, b) ↦ some (x ∷ a, b)
  | none ↦ if x == c then some ([], xs) else none
]

-- what the loop writes for one authority
unfoldable pub redact_authority : Text → Text
redact_authority a = elim (cut_last b'@' a) [
  | none ↦ a
  | some (userinfo, host) ↦ elim (cut_byte b':' userinfo) [
    | none ↦ a
    | some (user, password) ↦ user ++ b':' ∷ (mask ++ b'@' ∷ host)
  ]
]

-- one turn of the loop, and `rest` for what is left behind the authority
unfoldable pub redact_round : (Text → Text) → Text → Text
redact_round rest s = elim (cut_mark s) [
  | none ↦ s
  | some (head, tail) ↦
      head
      ++ (codes "://" ++ (redact_authority (before ends_authority tail) ++ rest (from_end tail)))
]

unfoldable pub redact_from : ℕ → Text → Text
redact_from zero s = s
redact_from (suc fuel) s = redact_round (redact_from fuel) s

unfoldable pub redact_uris : Text → Text
redact_uris s = redact_from (length s) s
