-- ===== src/Scan/EnvFile.antt =====
-- internal/scan/envfile.go: the `KEY=VALUE` files that a stack names.
--
-- An index into the lines is a recursion over the lines that are left, with the number of lines that
-- a value took. An index behind a backslash is a flag. White space is that of ASCII.

pub mod Quoted
pub mod RoundTrip
pub mod Folded
mod Tests
use labview.Common.{
  ℕ, zero, suc, ◌+◌, Bool, true, false, ◌&&◌, ◌||◌, not, List, [], ◌∷◌, ◌++◌, Option, none, some,
  ◌==◌, if◌then◌else◌, length, drop,
}
use labview.Common.Text.{
  Text, codes, is_empty, has_byte, has_prefix, cut_byte, trim_left, trim_right, trim_space,
  split_byte,
}
use labview.Common.Map.{Map, insert, remove}

pub record EnvEntry : Type 0 where
  pub key : Text
  pub value : Option Text

abbrev pub is_blank : ℕ → Bool
is_blank b = (b == b' ') || (b == 9)

abbrev pub is_return : ℕ → Bool
is_return b = b == 13

-- `strings.TrimPrefix`
unfoldable pub trim_prefix : Text → Text → Text
trim_prefix s p = if has_prefix s p then drop (length p) s else s

abbrev consed : ℕ → Option Text → Option Text
consed x none = none
consed x (some s) = some (x ∷ s)

-- The text before the closing quote; the flag says that a backslash stands before.
unfoldable pub closing_quote : ℕ → Bool → Text → Option Text
closing_quote q skip [] = none
closing_quote q skip (x ∷ s) =
    let rest = closing_quote q (not skip && (x == b'\\')) s in
    if skip || (x == b'\\') then consed x rest else if x == q then some [] else consed x rest

-- `quoted`: the body, and how many of the following lines it took
unfoldable pub quoted : ℕ → Text → List Text → Option (Text × ℕ)
quoted q rest [] = elim (closing_quote q false rest) [ some body ↦ some (body, 0) | none ↦ none ]
quoted q rest (line ∷ following) = elim (closing_quote q false rest) [
  | some body ↦ some (body, 0)
  | none ↦ elim (quoted q (trim_right is_return line) following) [
    | some (body, used) ↦ some (rest ++ 10 ∷ body, suc used)
    | none ↦ none
  ]
]

-- the `switch` of `unescape`
unfoldable pub reveal : ℕ → Text
reveal x =
    if x == b'n'
    then 10 ∷ []
    else if x == b'r'
    then 13 ∷ []
    else if x == b't'
    then 9 ∷ []
    else if (x == b'\\') || (x == b'"') || (x == 39)
    then x ∷ []
    else b'\\' ∷ x ∷ []

-- The flag says that a backslash was read and not yet written.
unfoldable pub unescape_from : Bool → Text → Text
unescape_from false [] = []
unescape_from true [] = b'\\' ∷ []
unescape_from false (x ∷ s) =
    let rest = unescape_from (x == b'\\') s in if x == b'\\' then rest else x ∷ rest
unescape_from true (x ∷ s) = reveal x ++ unescape_from false s

unfoldable pub unescape : Text → Text
unescape s = if not (has_byte b'\\' s) then s else unescape_from false s

-- The flag says that a comment may begin here.
unfoldable pub strip_from : Bool → Text → Text
strip_from start [] = []
strip_from start (x ∷ s) = if (x == b'#') && start then [] else x ∷ strip_from (is_blank x) s

unfoldable pub strip_comment : Text → Text
strip_comment s = strip_from true s

-- the last line of `envValue`
unfoldable pub plain_value : Text → Text
plain_value rest = trim_right is_blank (strip_comment rest)

unfoldable pub env_value : Text → List Text → Text × ℕ
env_value [] following = (plain_value [], 0)
env_value (x ∷ s) following =
    if x == b'"'
    then elim (quoted b'"' s following) [
      | none ↦ (plain_value (x ∷ s), 0)
      | some (body, used) ↦ (unescape body, used)
    ]
    else if x == 39
    then elim (quoted 39 s following) [
      | none ↦ (plain_value (x ∷ s), 0)
      | some (body, used) ↦ (body, used)
    ]
    else (plain_value (x ∷ s), 0)

abbrev pub bad_key : Text → Bool
bad_key key = is_empty key || has_byte b' ' key || has_byte 9 key

-- the turn of the loop behind `export `, for a declaration with its value, and with none
abbrev pub declaration : Text → Option (Text × Text) → List Text → Option (EnvEntry × ℕ)
declaration line none following =
    let key = trim_space line in
    if bad_key key then none else some (record { key = key; value = none }, 0)
declaration line (some (name, rest)) following =
    let key = trim_space name in
    if bad_key key
    then none
    else let found : Text × ℕ = env_value (trim_left is_blank rest) following in
      some (record { key = key; value = some found.0 }, found.1)

-- one turn of the loop: the entry, and how many of the following lines it took
unfoldable pub entry_of : Text → List Text → Option (EnvEntry × ℕ)
entry_of line following =
    let trimmed = trim_space (trim_right is_return line) in
    if is_empty trimmed || has_prefix trimmed (codes "#")
    then none
    else let rest = trim_prefix trimmed (codes "export ") in
      declaration rest (cut_byte b'=' rest) following

unfoldable pub parse_lines : ℕ → List Text → List EnvEntry
parse_lines skip [] = []
parse_lines (suc skip) (line ∷ lines) = parse_lines skip lines
parse_lines zero (line ∷ lines) = elim (entry_of line lines) [
  | none ↦ parse_lines 0 lines
  | some (e, used) ↦ e ∷ parse_lines used lines
]

-- the byte order mark in UTF-8
abbrev pub byte_order_mark : Text
byte_order_mark = 239 ∷ 187 ∷ 191 ∷ []

unfoldable pub parse_env_file : Text → List EnvEntry
parse_env_file s = parse_lines 0 (split_byte 10 (trim_prefix s byte_order_mark))

-- the loop of `envMap`
unfoldable pub fold_entries : Map Text → List EnvEntry → Map Text
fold_entries m [] = m
fold_entries m (e ∷ entries) =
    fold_entries (elim e.value [ none ↦ remove e.key m | some v ↦ insert e.key v m ]) entries

unfoldable pub env_map : List EnvEntry → Map Text
env_map entries = fold_entries [] entries
