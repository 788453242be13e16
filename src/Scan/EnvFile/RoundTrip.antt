-- ===== src/Scan/EnvFile/RoundTrip.antt =====
-- Entries that are written out are read back (envfile.go, `parseEnvFile`).
use labview.Common.{
  ℕ, ◌≡◌, refl, ap, ◌∙◌, Bool, true, false, ◌&&◌, not, List, [], ◌∷◌, ◌++◌, Option, none, some,
  arith, leb, ◌==◌, Bool-cases, and_true, inl, inr, append_assoc, append-nil, All,
}
use labview.Common.Text.{
  Text, codes, is_empty, has_byte, has_byte-append, has_prefix, cut_byte, cut_byte_complete,
  is_space, trim_left, trim_right, trim_space, split_byte,
}
use labview.Common.Trim.{free, trim_right-free, trim_right-last}
use labview.Scan.EnvFile.{
  EnvEntry, declaration, bad_key, is_blank, is_return, trim_prefix, entry_of, parse_lines,
  byte_order_mark, parse_env_file,
}
use labview.Scan.EnvFile.Quoted.{hide, escape, env_value-escape}

-- A byte of a name: ASCII, no white space and no `=`.
abbrev pub is_key_byte : ℕ → Bool
is_key_byte b = leb b 127 && not (is_space b) && not (b == b'=')

unfoldable pub key_bytes : Text → Bool
key_bytes [] = true
key_bytes (b ∷ k) = is_key_byte b && key_bytes k

-- A name that a line can begin with.
unfoldable pub is_key : Text → Bool
is_key [] = false
is_key (b ∷ k) = not (b == b'#') && key_bytes (b ∷ k)

abbrev pub IsNamed : EnvEntry → Type 0
IsNamed e = is_key e.key ≡ true

abbrev written_value : Option Text → Text
written_value none = []
written_value (some v) = b'=' ∷ b'"' ∷ (escape v ++ b'"' ∷ [])

-- An entry on a line of its own, its value between double quotes.
pub write_entry : EnvEntry → Text
write_entry e = e.key ++ written_value e.value

unfoldable pub render : List EnvEntry → Text
render [] = []
render (e ∷ es) = write_entry e ++ 10 ∷ render es

key_bytes-free_space : (k : Text) → key_bytes k ≡ true → free is_space k ≡ true
unfolding key_bytes free
key_bytes-free_space [] h = refl
key_bytes-free_space (b ∷ k) h = ground (arith, key_bytes-free_space k)

key_bytes-free_return : (k : Text) → key_bytes k ≡ true → free is_return k ≡ true
unfolding key_bytes free
key_bytes-free_return [] h = refl
key_bytes-free_return (b ∷ k) h = ground (arith, key_bytes-free_return k)

key_bytes-has_byte :
    (k : Text) (c : ℕ) → key_bytes k ≡ true → is_key_byte c ≡ false → has_byte c k ≡ false
unfolding key_bytes has_byte
key_bytes-has_byte [] c h n = refl
key_bytes-has_byte (b ∷ k) c h n = elim (Bool-cases (b == c)) [
  | inl e ↦ absurd (ground arith)
  | inr e ↦ ground (arith, key_bytes-has_byte k c)
]

-- A prefix that ends in a space is none of a text whose first space stands behind another byte.
has_prefix-spaced :
    (k rest w : Text)
    → has_byte b' ' k ≡ false
    → has_byte b'=' w ≡ false
    → has_prefix (k ++ b'=' ∷ rest) (w ++ b' ' ∷ []) ≡ false
unfolding has_prefix has_byte
has_prefix-spaced [] rest [] h n = refl
has_prefix-spaced [] rest (c ∷ w) h n = ground arith
has_prefix-spaced (b ∷ k) rest [] h n = ground arith
has_prefix-spaced (b ∷ k) rest (c ∷ w) h n = ground (arith, has_prefix-spaced k rest w)

has_prefix-unspaced : (k w : Text) → has_byte b' ' k ≡ false → has_prefix k (w ++ b' ' ∷ []) ≡ false
unfolding has_prefix has_byte
has_prefix-unspaced [] [] h = refl
has_prefix-unspaced [] (c ∷ w) h = refl
has_prefix-unspaced (b ∷ k) [] h = ground arith
has_prefix-unspaced (b ∷ k) (c ∷ w) h = ground (arith, has_prefix-unspaced k w)

trim_space-free : (k : Text) → key_bytes k ≡ true → trim_space k ≡ k
unfolding trim_space trim_left key_bytes free
trim_space-free [] h = trim_right-free is_space [] h
trim_space-free (b ∷ k) h =
    let kept : trim_left is_space (b ∷ k) ≡ b ∷ k = ground arith in
    rw kept (trim_right-free is_space (b ∷ k) (key_bytes-free_space (b ∷ k) h))

-- A line that begins and ends with a byte that is no white space is not trimmed.
trim_space-line :
    (b : ℕ) (s : Text) (x : ℕ)
    → is_space b ≡ false
    → is_space x ≡ false
    → trim_space (trim_right is_return (b ∷ (s ++ x ∷ []))) ≡ b ∷ (s ++ x ∷ [])
unfolding trim_space trim_left
trim_space-line b s x h k = rw (trim_right-last is_return (b ∷ s) x (ground arith)) (
    let kept : trim_left is_space (b ∷ (s ++ x ∷ [])) ≡ b ∷ (s ++ x ∷ []) = ground arith in
    rw kept (trim_right-last is_space (b ∷ s) x k))

cut_byte-none : (c : ℕ) (s : Text) → has_byte c s ≡ false → cut_byte c s ≡ none
unfolding cut_byte has_byte
cut_byte-none c [] h = refl
cut_byte-none c (x ∷ s) h = ground (arith, cut_byte-none c s)

blank_quote : (s : Text) → trim_left is_blank (b'"' ∷ s) ≡ b'"' ∷ s
unfolding trim_left
blank_quote s = refl

-- A line whose trimmed text is no comment and does not begin with `export ` is a declaration.
entry_of-declaration :
    (line t : Text) (following : List Text)
    → trim_space (trim_right is_return line) ≡ t
    → is_empty t ≡ false
    → has_prefix t (codes "#") ≡ false
    → has_prefix t (codes "export ") ≡ false
    → entry_of line following ≡ declaration t (cut_byte b'=' t) following
unfolding entry_of trim_prefix
entry_of-declaration line t following trimmed ne comment exported =
    rw (trimmed, ne, comment, exported) refl

key_bytes_clean :
    (b : ℕ) (k : Text)
    → is_key (b ∷ k) ≡ true
    → (key_bytes (b ∷ k) ≡ true)
      × (bad_key (b ∷ k) ≡ false)
      × (is_space b ≡ false)
      × (has_prefix (b ∷ k) (codes "#") ≡ false)
unfolding is_key has_prefix
key_bytes_clean b k h =
    let (first, all) = (and_true (not (b == b'#')) (key_bytes (b ∷ k))).0 h in
    let no_space = key_bytes-has_byte (b ∷ k) b' ' all refl in
    let no_tab = key_bytes-has_byte (b ∷ k) 9 all refl in
    (all, rw (no_space, no_tab) refl, unfold key_bytes in ground arith, ground arith)

entry_of-key :
    (k : Text) (following : List Text)
    → is_key k ≡ true
    → entry_of k following ≡ some (record { key = k; value = none }, 0)
entry_of-key [] following h = absurd (unfold is_key in ground arith)
entry_of-key (b ∷ k) following h =
    let (all, good, space, comment) = key_bytes_clean b k h in
    let trimmed : trim_space (trim_right is_return (b ∷ k)) ≡ b ∷ k =
      rw (trim_right-free is_return (b ∷ k) (key_bytes-free_return (b ∷ k) all))
        (trim_space-free (b ∷ k) all) in
    entry_of-declaration (b ∷ k) (b ∷ k) following trimmed refl comment
      (has_prefix-unspaced (b ∷ k) (codes "export") (key_bytes-has_byte (b ∷ k) b' ' all refl))
    ∙ rw
        (
          cut_byte-none b'=' (b ∷ k) (key_bytes-has_byte (b ∷ k) b'=' all refl),
          trim_space-free (b ∷ k) all,
          good,
        )
        refl

entry_of-value :
    (k v : Text) (following : List Text)
    → is_key k ≡ true
    → entry_of (k ++ written_value (some v)) following
      ≡ some (record { key = k; value = some v }, 0)
entry_of-value [] v following h = absurd (unfold is_key in ground arith)
entry_of-value (b ∷ k) v following h =
    let (all, good, space, comment) = key_bytes_clean b k h in
    let line : Text = b ∷ (k ++ b'=' ∷ b'"' ∷ (escape v ++ b'"' ∷ [])) in
    let ends : b ∷ ((k ++ b'=' ∷ b'"' ∷ escape v) ++ b'"' ∷ []) ≡ line =
      ap (λ t. b ∷ t) (append_assoc k (b'=' ∷ b'"' ∷ escape v) (b'"' ∷ [])) in
    let trimmed : trim_space (trim_right is_return line) ≡ line =
      rw ends at (trim_space-line b (k ++ b'=' ∷ b'"' ∷ escape v) b'"' space refl) in
    entry_of-declaration line line following trimmed refl (unfold has_prefix in comment) (
      has_prefix-spaced (b ∷ k) _ (codes "export") (key_bytes-has_byte (b ∷ k) b' ' all refl)
        (unfold has_byte in refl))
    ∙ rw
        (
          cut_byte_complete b'=' (b ∷ k) (b'"' ∷ (escape v ++ b'"' ∷ []))
              (key_bytes-has_byte (b ∷ k) b'=' all refl),
          trim_space-free (b ∷ k) all,
          good,
          blank_quote (escape v ++ b'"' ∷ []),
          env_value-escape v [] following,
        )
        refl

key_bytes-no_line : (k : Text) → key_bytes k ≡ true → has_byte 10 k ≡ false
key_bytes-no_line k h = key_bytes-has_byte k 10 h refl

is_key-key_bytes : (k : Text) → is_key k ≡ true → key_bytes k ≡ true
is_key-key_bytes [] h = absurd (unfold is_key in ground arith)
is_key-key_bytes (b ∷ k) h = (key_bytes_clean b k h).0

escape-no_line : (v : Text) → has_byte 10 (escape v) ≡ false
unfolding escape hide has_byte
escape-no_line [] = refl
escape-no_line (c ∷ v) = ground (arith, has_byte-append 10 (hide c) (escape v), escape-no_line v)

blank_line : parse_lines 0 (split_byte 10 []) ≡ []
unfolding parse_lines split_byte entry_of trim_space trim_right trim_left
blank_line = refl

unmarked_key :
    (k value rest : Text)
    → is_key k ≡ true
    → has_prefix ((k ++ value) ++ rest) byte_order_mark ≡ false
unfolding is_key key_bytes has_prefix
unmarked_key [] value rest h = absurd (ground arith)
unmarked_key (b ∷ k) value rest h = ground arith

written_value-no_line : (o : Option Text) → has_byte 10 (written_value o) ≡ false
unfolding has_byte
written_value-no_line none = refl
written_value-no_line (some v) =
    rw (has_byte-append 10 (escape v) (b'"' ∷ []), escape-no_line v) refl

write_entry-no_line : (e : EnvEntry) → IsNamed e → has_byte 10 (write_entry e) ≡ false
unfolding write_entry
write_entry-no_line e h =
    rw
      (
        has_byte-append 10 e.key (written_value e.value),
        key_bytes-no_line e.key (is_key-key_bytes e.key h),
        written_value-no_line e.value,
      )
      refl

split_byte-ne : (c : ℕ) (s : Text) → (p : Text) × (ps : List Text) × (split_byte c s ≡ p ∷ ps)
unfolding split_byte
split_byte-ne c [] = ([], [], refl)
split_byte-ne c (x ∷ s) =
    let (p, ps, e) = split_byte-ne c s in
    elim (Bool-cases (x == c)) [
      | inl h ↦ ([], p ∷ ps, rw (e, h) refl)
      | inr h ↦ (x ∷ p, ps, rw (e, h) refl)
    ]

split_byte-line :
    (c : ℕ) (line rest : Text)
    → has_byte c line ≡ false
    → split_byte c (line ++ c ∷ rest) ≡ line ∷ split_byte c rest
unfolding split_byte has_byte
split_byte-line c [] rest h =
    let (p, ps, e) = split_byte-ne c rest in rw (e, split_byte) (ground arith)
split_byte-line c (x ∷ line) rest h =
    let other : (x == c) ≡ false = ground arith in
    rw (split_byte-line c line rest (ground arith), other) refl

entry_of-parts :
    (k : Text) (o : Option Text) (following : List Text)
    → is_key k ≡ true
    → entry_of (k ++ written_value o) following ≡ some (record { key = k; value = o }, 0)
entry_of-parts k none following h = rw (append-nil k) (entry_of-key k following h)
entry_of-parts k (some v) following h = entry_of-value k v following h

parse_lines-render :
    (es : List EnvEntry) → All IsNamed es → parse_lines 0 (split_byte 10 (render es)) ≡ es
unfolding render parse_lines write_entry
parse_lines-render [] h = blank_line
parse_lines-render (e ∷ es) h =
    rw
      (
        split_byte-line 10 (write_entry e) (render es) (write_entry-no_line e h.0),
        parse_lines,
        entry_of-parts e.key e.value (split_byte 10 (render es)) h.0,
        parse_lines-render es h.1,
      )
      refl

unmarked : (es : List EnvEntry) → All IsNamed es → has_prefix (render es) byte_order_mark ≡ false
unfolding has_prefix render write_entry
unmarked [] h = refl
unmarked (e ∷ es) h = unmarked_key e.key (written_value e.value) _ h.0

-- Entries that are written out, each on a line and its value escaped between double quotes, are read
-- back, whatever bytes the values hold. The names are ASCII, hold neither white space nor `=`, and
-- begin with no `#`.
pub parse_env_file-render : (es : List EnvEntry) → All IsNamed es → parse_env_file (render es) ≡ es
unfolding parse_env_file trim_prefix
parse_env_file-render es h = rw (unmarked es h) (parse_lines-render es h)
