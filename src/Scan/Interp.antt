-- ===== src/Scan/Interp.antt =====
-- internal/scan/interp.go: substitution of variables in one scalar of a compose file.
--
-- A loop over an index is a recursion over what is left of the text, with the number of bytes that
-- the index jumps over. `levels` counts what is left of `maxInterpDepth`, so the recursion needs no
-- fuel. A note is its kind and the text that it quotes; the prose, and the field's name that every
-- note begins with, are left out.
pub mod Laws
pub mod Braces
mod Tests
use labview.Common.{
  ℕ, zero, suc, ◌+◌, ◌-◌, Bool, true, false, ◌&&◌, ◌||◌, not, List, [], ◌∷◌, ◌++◌, Option, none,
  some, leb, ◌==◌, if◌then◌else◌, length, take, drop,
}
use labview.Common.Text.{Text, codes, text_eq, is_empty, has_byte, has_prefix}
use labview.Common.Map.{Map, lookup}

abbrev pub max_interp_depth : ℕ
max_interp_depth = 32

-- The set `varSource`.
pub record VarSource : Type 0 where
  pub env_file : Bool
  pub default : Bool
  pub shell : Bool

abbrev pub from_none : VarSource
from_none = record { env_file = false; default = false; shell = false }

abbrev pub from_env_file : VarSource
from_env_file = record { env_file = true; default = false; shell = false }

abbrev pub from_shell : VarSource
from_shell = record { env_file = false; default = false; shell = true }

pub data Note : Type 0 where
  too_deep : Note
  no_closing_brace : Text → Note
  not_a_reference : Text → Note
  required_not_set : Text → Text → Note
  not_set : Text → Note

pub record Expanded : Type 0 where
  pub text : Text
  pub src : VarSource
  pub notes : List Note

-- One more piece: the text is written, the sources are joined, the notes appended.
infixr 60 ◌<>◌
abbrev pub ◌<>◌ : Expanded → Expanded → Expanded
a <> b = record {
  text = a.text ++ b.text;
  src = record {
    env_file = a.src.env_file || b.src.env_file;
    default = a.src.default || b.src.default;
    shell = a.src.shell || b.src.shell;
  };
  notes = a.notes ++ b.notes;
}

abbrev pub plain : Text → Expanded
plain s = record { text = s; src = from_none; notes = [] }

abbrev pub as_written : Text → Note → Expanded
as_written raw note = record { text = raw; src = from_shell; notes = note ∷ [] }

pub is_alpha : ℕ → Bool
is_alpha c = (leb b'a' c && leb c b'z') || (leb b'A' c && leb c b'Z')

pub is_digit : ℕ → Bool
is_digit c = leb b'0' c && leb c b'9'

-- the loop of `scanName`
name_bytes : Text → Text
unfolding is_alpha is_digit
name_bytes [] = []
name_bytes (c ∷ s) =
    let rest = name_bytes s in if is_alpha c || is_digit c || c == b'_' then c ∷ rest else []

unfoldable pub scan_name : Text → Text
unfolding name_bytes
scan_name [] = []
scan_name (c ∷ s) = if not (is_alpha c || c == b'_') then [] else c ∷ name_bytes s

-- The place of the brace that closes the first one. The text begins with that one, so the depth
-- is never below 1 where a closing brace is read.
brace_from : ℕ → Text → Option ℕ
brace_from depth [] = none
brace_from depth (c ∷ s) =
    let found =
      brace_from (if c == b'{' then depth + 1 else if c == b'}' then depth - 1 else depth) s in
    if c == b'}' && depth - 1 == 0
    then some 0
    else elim found [ none ↦ none | some i ↦ some (suc i) ]

unfoldable pub match_brace : Text → Option ℕ
unfolding brace_from
match_brace s = brace_from 0 s

-- the five forms of an expression's tail; the flag is the colon
pub data Operator : Type 0 where
  bare : Operator
  default_if : Bool → Operator
  required_if : Bool → Operator

unfoldable pub split_operator : Text → Option (Operator × Text)
split_operator rest =
    if is_empty rest
    then some (bare, [])
    else if has_prefix rest (codes ":-")
    then some (default_if true, drop 2 rest)
    else if has_prefix rest (codes ":?")
    then some (required_if true, drop 2 rest)
    else if has_prefix rest (codes "-")
    then some (default_if false, drop 1 rest)
    else if has_prefix rest (codes "?")
    then some (required_if false, drop 1 rest)
    else none

pub single_ref : Text → Bool
single_ref s =
    if has_prefix s (codes "${")
    then elim (match_brace (drop 1 s)) [ none ↦ false | some end ↦ suc end == length s - 1 ]
    else if has_prefix s (codes "$")
    then not (length s == 1) && text_eq (scan_name (drop 1 s)) (drop 1 s)
    else false

abbrev pub absent_value : Option Text → Bool → Bool
absent_value none colon = true
absent_value (some value) colon = is_empty value && colon

abbrev pub value_of : Option Text → Text
value_of none = []
value_of (some v) = v

abbrev supplied : Text → Expanded
supplied value = record { text = value; src = from_env_file; notes = [] }

-- What one round of the loop of `expandAt` writes, and how many bytes after the first it jumps
-- over; or the last piece, at its `break`.
pub data Round : Type 0 where
  piece : Expanded → ℕ → Round
  last : Expanded → Round

module _ (vars : Map Text) where
  -- `lookup`
  unfoldable pub plain_lookup : Text → Text → Expanded
  plain_lookup name raw = elim (lookup name vars) [
    | some value ↦ supplied value
    | none ↦ as_written raw (not_set name)
  ]

  -- the `switch` of `evalBraced`; `expand` evaluates a default, one level down
  pub eval_operator : (Text → Expanded) → Text → Text → Operator → Text → Expanded
  unfolding plain_lookup single_ref
  eval_operator expand name raw bare arg = plain_lookup name raw
  eval_operator expand name raw (default_if colon) arg =
      if not (absent_value (lookup name vars) colon)
      then supplied (value_of (lookup name vars))
      else let e = expand arg in
        (if not (single_ref arg) then record e { src = record (e.src) { default = true } } else e)
  eval_operator expand name raw (required_if colon) arg =
      if not (absent_value (lookup name vars) colon)
      then supplied (value_of (lookup name vars))
      else as_written raw (required_not_set name arg)

  unfoldable pub eval_braced : (Text → Expanded) → Text → Text → Expanded
  unfolding eval_operator
  eval_braced expand expr raw =
      if is_empty (scan_name expr)
      then as_written raw (not_a_reference raw)
      else elim (split_operator (drop (length (scan_name expr)) expr)) [
        | none ↦ as_written raw (not_a_reference raw)
        | some (op, arg) ↦ eval_operator expand (scan_name expr) raw op arg
      ]

  -- the rest of a round that has read a `$`, of which `s` is what follows
  pub dollar : (Text → Expanded) → Text → Round
  unfolding plain_lookup
  dollar expand s =
      if has_prefix s (codes "$")
      then piece (plain (codes "$")) 1
      else if has_prefix s (codes "{")
      then elim (match_brace s) [
        | none ↦ last (as_written (b'$' ∷ s) (no_closing_brace (b'$' ∷ s)))
        | some end ↦
            piece (eval_braced expand (take (end - 1) (drop 1 s)) (b'$' ∷ take (end + 1) s))
              (end + 1)
      ]
      else if not (is_empty (scan_name s))
      then piece (plain_lookup (scan_name s) (b'$' ∷ scan_name s)) (length (scan_name s))
      else piece (plain (codes "$")) 0

  pub round : (Text → Expanded) → ℕ → Text → Round
  round expand c s = if not (c == b'$') then piece (plain (c ∷ [])) 0 else dollar expand s

  -- the loop of `expandAt`
  pub expand_from : (Text → Expanded) → ℕ → Text → Expanded
  expand_from expand skip [] = plain []
  expand_from expand (suc skip) (c ∷ s) = expand_from expand skip s
  expand_from expand zero (c ∷ s) = elim (round expand c s) [
    | last e ↦ e
    | piece e skip ↦ e <> expand_from expand skip s
  ]

  -- `expandAt`, at the depth that is `levels` below the first one that is refused
  pub expand_at : ℕ → Text → Expanded
  expand_at zero s = as_written s too_deep
  expand_at (suc levels) s = expand_from (λ arg. expand_at levels arg) 0 s

  pub expand : Text → Expanded
  expand s = if not (has_byte b'$' s) then plain s else expand_at (suc max_interp_depth) s

pub data EnvVarSource : Type 0 where
  shell_default env_file environment : EnvVarSource

pub source_of : VarSource → EnvVarSource → EnvVarSource
source_of src declared_in =
    if src.default || src.shell
    then shell_default
    else if src.env_file
    then env_file
    else declared_in
