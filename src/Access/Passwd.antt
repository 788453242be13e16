-- ===== src/Access/Passwd.antt =====
-- internal/access/passwd.go: the passwd file and its reader. (`Verify` is in Gate.Login.)
--
-- A warning is the number of its line and its kind. `os.Stat` and `os.ReadFile` are the record `Files`,
-- whose errors `classify` has sorted already. White space is that of ASCII.

pub mod Accepted
mod Tests
use labview.Common.{
  ℕ, zero, suc, ◌+◌, Bool, true, false, ◌&&◌, ◌||◌, not, List, [], ◌∷◌, ◌++◌, Option, none, some,
  leb, ltb, ◌==◌, if◌then◌else◌, length, drop,
}
use labview.Common.Text.{
  Text, codes, text_eq, is_empty, has_byte, has_prefix, cut_byte, before, trim_right, trim_space,
  split_byte,
}
use labview.Common.Map.{Map, lookup, insert}
use labview.Access.Username.{valid_username}

abbrev pub max_passwd_bytes : ℕ
max_passwd_bytes = 65_536

abbrev pub max_passwd_entries : ℕ
max_passwd_entries = 1000

abbrev pub honoured_prefixes : List Text
honoured_prefixes = codes "$2a$" ∷ codes "$2b$" ∷ codes "$2y$" ∷ []

pub data PasswdError : Type 0 where
  missing is_directory too_large denied other : PasswdError

pub data Warning : Type 0 where
  too_many_entries no_separator no_username bad_username not_a_hash duplicate : Warning
  unsupported : Text → Warning

pub record PasswdFile : Type 0 where
  pub entries : Map Text
  pub warnings : List (ℕ × Warning)
  pub err : Option PasswdError

abbrev pub no_entries : Map Text → Bool
no_entries [] = true
no_entries (e ∷ m) = false

-- `Usable`
abbrev pub usable : PasswdFile → Bool
usable file = not (no_entries file.entries)

abbrev pub empty_file : PasswdFile
empty_file = record { entries = []; warnings = []; err = none }

-- `split`
unfoldable pub split : Text → Option (Text × Text)
split line = elim (cut_byte b':' line) [
  | none ↦ none
  | some (user, hash) ↦ some (trim_space user, trim_space hash)
]

abbrev identifier_byte : ℕ → Bool
identifier_byte c =
    (leb b'a' c && leb c b'z')
    || (leb b'A' c && leb c b'Z')
    || (leb b'0' c && leb c b'9')
    || (c == b'-')
    || (c == b'_')

-- the loop of `safeIdentifier`: `room` is what is left of its 16 bytes
unfoldable pub identifier_bytes : ℕ → Text → Text
identifier_bytes zero s = []
identifier_bytes (suc room) [] = []
identifier_bytes (suc room) (c ∷ s) = elim (identifier_byte c) [
  | true ↦ c ∷ identifier_bytes room s
  | false ↦ identifier_bytes (suc room) s
]

unfoldable pub safe_identifier : Text → Text
safe_identifier s =
    let kept = identifier_bytes 16 s in if is_empty kept then codes "unrecognised" else kept

unfoldable pub any_prefix : Text → List Text → Bool
any_prefix hash [] = false
any_prefix hash (p ∷ ps) = if has_prefix hash p then true else any_prefix hash ps

-- `algorithm`: nothing for a hash that is honoured, else the identifier to name
unfoldable pub algorithm : Text → Option Text
algorithm hash =
    if any_prefix hash honoured_prefixes
    then none
    else let rest = if has_prefix hash (codes "$") then drop 1 hash else hash in
      some (safe_identifier (before (λ c. c == b'$') rest))

-- What becomes of a line that is not empty and no comment: an account, or a warning.
unfoldable pub judge_line : Text → Map Text → Option (Text × Text) × Option Warning
judge_line line entries = elim (split line) [
  | none ↦ (none, some no_separator)
  | some (user, hash) ↦
      if is_empty user
      then (none, some no_username)
      else if not (valid_username user)
      then (none, some bad_username)
      else if not (has_byte b'$' hash)
      then (none, some not_a_hash)
      else elim (algorithm hash) [
        | some id ↦ (none, some (unsupported id))
        | none ↦ elim (lookup user entries) [
          | some old ↦ (none, some duplicate)
          | none ↦ (some (user, hash), none)
        ]
      ]
]

abbrev pub add_account : Option (Text × Text) → Map Text → Map Text
add_account none entries = entries
add_account (some (user, hash)) entries = insert user hash entries

abbrev pub add_warning : ℕ → Option Warning → List (ℕ × Warning) → List (ℕ × Warning)
add_warning n none warnings = warnings
add_warning n (some w) warnings = warnings ++ (n, w) ∷ []

-- `strings.TrimSuffix(raw, "\r")`
unfoldable pub trim_suffix_return : Text → Text
trim_suffix_return [] = []
trim_suffix_return (c ∷ []) = if c == 13 then [] else c ∷ []
trim_suffix_return (c ∷ d ∷ s) = c ∷ trim_suffix_return (d ∷ s)

-- the loop of `ParsePasswd`; `n` is the index of the line
unfoldable pub parse_from :
    ℕ → List Text → Map Text → List (ℕ × Warning) → Map Text × List (ℕ × Warning)
parse_from n [] entries warnings = (entries, warnings)
parse_from n (raw ∷ lines) entries warnings =
    let line = trim_space (trim_suffix_return raw) in
    elim (is_empty line || has_prefix line (codes "#")) [
      | true ↦ parse_from (n + 1) lines entries warnings
      | false ↦ elim (leb max_passwd_entries (length entries)) [
        | true ↦ (entries, warnings ++ (n + 1, too_many_entries) ∷ [])
        | false ↦
            let judged = judge_line line entries in
            parse_from (n + 1) lines (add_account judged.0 entries)
              (add_warning (n + 1) judged.1 warnings)
      ]
    ]

unfoldable pub parse_passwd : Text → PasswdFile
parse_passwd content =
    if ltb max_passwd_bytes (length content)
    then record empty_file { err = some too_large }
    else let found = parse_from 0 (split_byte 10 content) [] [] in
      record { entries = found.0; warnings = found.1; err = none }

-- what identifies one version of a file
pub record Stamp : Type 0 where
  pub size : ℕ
  pub mtime : ℕ
  pub inode : ℕ

pub record Info : Type 0 where
  pub dir : Bool
  pub stamp : Stamp

pub data Tried (A : Type 0) : Type 0 where
  got : A → Tried A
  failed : PasswdError → Tried A

pub record Files : Type 0 where
  pub stat : Text → Tried Info
  pub read_file : Text → Tried Text

pub record PasswdReader : Type 0 where
  pub path : Text
  pub at : Stamp
  pub cached : PasswdFile
  pub loaded : Bool

abbrev pub same_stamp : Stamp → Stamp → Bool
same_stamp a b = (a.size == b.size) && (a.mtime == b.mtime) && (a.inode == b.inode)

-- `fail`: the error, beside what is still held
unfoldable pub fail_with : PasswdReader → PasswdError → PasswdFile
fail_with r e =
    if r.loaded then record (r.cached) { err = some e } else record empty_file { err = some e }

-- the end of `Read`, for a file that was found
unfoldable pub read_found : Files → PasswdReader → Text → Info → PasswdReader × PasswdFile
read_found files r path info =
    if info.dir
    then (r, fail_with r is_directory)
    else if ltb max_passwd_bytes info.stamp.size
    then (r, fail_with r too_large)
    else if r.loaded && text_eq r.path path && same_stamp r.at info.stamp
    then (r, r.cached)
    else elim (files.read_file path) [
      | failed e ↦ (r, fail_with r e)
      | got content ↦
          let file = parse_passwd content in
          (record { path = path; at = info.stamp; cached = file; loaded = true }, file)
    ]

-- `Read`
unfoldable pub read : Files → PasswdReader → Text → PasswdReader × PasswdFile
read files r path =
    if is_empty (trim_space path)
    then (record r { path = []; cached = empty_file; loaded = false }, empty_file)
    else elim (files.stat path) [
      | failed e ↦ (r, fail_with r e)
      | got info ↦ read_found files r path info
    ]
