-- ===== src/Scan/Interp/Braces.antt =====
-- Where a braced expression ends, and what it stands for (interp.go, `matchBrace`, `evalBraced`).
use labview.Common.{
  ℕ, suc, ◌+◌, ◌-◌, ◌<◌, ◌≡◌, refl, ap, ◌∙◌, true, false, ◌&&◌, ◌||◌, inl, inr, Bool-cases, none,
  Option-cases, List, [], ◌∷◌, ◌++◌, some, arith, ◌==◌, if◌then◌else◌, length, take, drop,
}
use labview.Common.Text.{Text, is_empty, has_byte, has_byte-append, has_prefix}
use labview.Common.Map.{Map, lookup}
use labview.Scan.Interp.{
  Expanded, ◌<>◌, plain, from_env_file, from_shell, not_set, plain_lookup, eval_operator,
  eval_braced, piece, dollar, round, bare, default_if, Operator, expand_from, expand_at, expand,
  brace_from, match_brace, split_operator, scan_name, name_bytes, is_alpha, is_digit,
  max_interp_depth,
}
use labview.Scan.Interp.Laws.{expand_from-append, expand_lem}

-- How many times a byte stands in a text.
abbrev pub count : ℕ → Text → ℕ
count c [] = 0
count c (x ∷ s) = if x == c then suc (count c s) else count c s

abbrev deeper : ℕ → ℕ → ℕ
deeper depth c = if c == b'{' then depth + 1 else if c == b'}' then depth - 1 else depth

brace_from_sound :
    (depth : ℕ) (s : Text) (end : ℕ)
    → 0 < depth
    → brace_from depth s ≡ some end
    → (end < length s) × (depth + count b'{' (take (suc end) s) ≡ count b'}' (take (suc end) s))
unfolding brace_from
brace_from_sound depth [] end d h = absurd (ground arith)
brace_from_sound depth (c ∷ s) end d h = elim (Bool-cases (c == b'}' && depth - 1 == 0)) [
  | inl e ↦ let z : end ≡ 0 = ground arith in rw z (ground arith, ground arith)
  | inr e ↦ elim (Option-cases (brace_from (deeper depth c) s)) [
    | inl f ↦ absurd (ground arith)
    | inr (i, f) ↦
        let z : end ≡ suc i = ground arith in
        let ih = brace_from_sound (deeper depth c) s i (ground arith) f in
        rw z (ground arith, ground arith)
  ]
]

-- The brace that closes the first one stands in the text, and up to it there are as many closing
-- braces as opening ones.
pub match_brace_balanced :
    (s : Text) (end : ℕ)
    → match_brace (b'{' ∷ s) ≡ some end
    → (end < suc (length s))
      × (count b'{' (take (suc end) (b'{' ∷ s)) ≡ count b'}' (take (suc end) (b'{' ∷ s)))
unfolding match_brace
match_brace_balanced s end h = elim (Option-cases (brace_from 1 s)) [
  | inl f ↦ absurd (ground arith)
  | inr (i, f) ↦
      let z : end ≡ suc i = ground arith in
      let ih = brace_from_sound 1 s i (omega arith) f in rw z (ground arith, ground arith)
]

brace_from-plain :
    (body post : Text)
    → has_byte b'{' body ≡ false
    → has_byte b'}' body ≡ false
    → brace_from 1 (body ++ b'}' ∷ post) ≡ some (length body)
unfolding brace_from has_byte
brace_from-plain [] post h k = refl
brace_from-plain (c ∷ body) post h k =
    ground (arith, brace_from-plain body post (ground arith) (ground arith))

take-append {ℓ} : {A : Type ℓ} (xs ys : List A) → take (length xs) (xs ++ ys) ≡ xs
take-append [] ys = refl
take-append (x ∷ xs) ys = rw (take-append xs ys)

take-append_one {ℓ} :
    {A : Type ℓ} (xs : List A) (y : A) (ys : List A)
    → take (suc (length xs)) (xs ++ y ∷ ys) ≡ xs ++ y ∷ []
take-append_one [] y ys = refl
take-append_one (x ∷ xs) y ys = rw (take-append_one xs y ys)

-- the expression with its dollar sign and braces
abbrev pub braced : Text → Text
braced body = b'$' ∷ b'{' ∷ (body ++ b'}' ∷ [])

module _ (vars : Map Text) (expand' : Text → Expanded) where
  expand_from-skip :
      (xs : Text) (y : ℕ) (ys : Text)
      → expand_from vars expand' (suc (length xs)) (xs ++ y ∷ ys) ≡ expand_from vars expand' 0 ys
  unfolding expand_from
  expand_from-skip [] y ys = refl
  expand_from-skip (x ∷ xs) y ys = expand_from-skip xs y ys

  module _ (body post : Text) (h : has_byte b'{' body ≡ false)
      (k : has_byte b'}' body ≡ false) where
    found : match_brace (b'{' ∷ (body ++ b'}' ∷ post)) ≡ some (suc (length body))
    unfolding match_brace brace_from
    found = ground (arith, brace_from-plain body post h k)

    round-braced :
        round vars expand' b'$' (b'{' ∷ (body ++ b'}' ∷ post))
        ≡ piece (eval_braced vars expand' body (braced body)) (suc (suc (length body)))
    unfolding round dollar has_prefix
    round-braced =
        let n : suc (length body) - 1 ≡ length body = omega arith in
        let m : suc (length body) + 1 ≡ suc (suc (length body)) = omega arith in
        rw (found, dollar) (rw (n, m, take-append, take-append_one))

    expand_from-braced :
        expand_from vars expand' 0 (b'$' ∷ b'{' ∷ (body ++ b'}' ∷ post))
        ≡ eval_braced vars expand' body (braced body) <> expand_from vars expand' 0 post
    unfolding expand_from
    expand_from-braced = rw (round-braced, expand_from) (rw (expand_from-skip body b'}' post))

-- A name of the pattern: the scan takes all of it.
abbrev pub IsName : Text → Type 0
IsName name = (scan_name name ≡ name) × (is_empty name ≡ false)

name_bytes-head :
    (c : ℕ) (s : Text)
    → name_bytes (c ∷ s) ≡ c ∷ s
    → ((is_alpha c || is_digit c || c == b'_') ≡ true) × (name_bytes s ≡ s)
unfolding name_bytes
name_bytes-head c s h = (ground arith, ground arith)

name_bytes-plain :
    (s : Text) → name_bytes s ≡ s → (has_byte b'{' s ≡ false) × (has_byte b'}' s ≡ false)
unfolding name_bytes has_byte
name_bytes-plain [] h = (refl, refl)
name_bytes-plain (c ∷ s) h =
    let (b, t) = name_bytes-head c s h in
    let (p, q) = name_bytes-plain s t in (ground arith, ground arith)

-- What follows a name and begins with no byte of one is not taken.
name_bytes-append :
    (s : Text) (c : ℕ) (rest : Text)
    → name_bytes s ≡ s
    → (is_alpha c || is_digit c || c == b'_') ≡ false
    → name_bytes (s ++ c ∷ rest) ≡ s
unfolding name_bytes
name_bytes-append [] c rest h k = rw k
name_bytes-append (x ∷ s) c rest h k =
    let (b, t) = name_bytes-head x s h in ground (arith, name_bytes-append s c rest t k)

scan_name-plain :
    (name : Text) → IsName name → (has_byte b'{' name ≡ false) × (has_byte b'}' name ≡ false)
unfolding scan_name has_byte
scan_name-plain [] h = (refl, refl)
scan_name-plain (c ∷ s) h =
    let (p, q) = name_bytes-plain s (ground arith) in (ground arith, ground arith)

scan_name-append :
    (name : Text) (c : ℕ) (rest : Text)
    → IsName name
    → (is_alpha c || is_digit c || c == b'_') ≡ false
    → scan_name (name ++ c ∷ rest) ≡ name
unfolding scan_name
scan_name-append [] c rest h k = absurd (ground arith)
scan_name-append (x ∷ s) c rest h k = ground (arith, name_bytes-append s c rest (ground arith) k)

drop_self {ℓ} : {A : Type ℓ} (xs : List A) → drop (length xs) xs ≡ []
drop_self [] = refl
drop_self (x ∷ xs) = drop_self xs

drop-append {ℓ} : {A : Type ℓ} (xs ys : List A) → drop (length xs) (xs ++ ys) ≡ ys
drop-append [] [] = refl
drop-append [] (y ∷ ys) = refl
drop-append (x ∷ xs) ys = drop-append xs ys

split-default : (arg : Text) → split_operator (b':' ∷ b'-' ∷ arg) ≡ some (default_if true, arg)
unfolding split_operator has_prefix
split-default [] = refl
split-default (c ∷ arg) = refl

split-bare : split_operator [] ≡ some (bare, [])
unfolding split_operator
split-bare = refl

module _ (vars : Map Text) (expand' : Text → Expanded) (name raw : Text) (n : IsName name) where
  eval_braced_lem :
      (expr rest : Text) (op : Operator) (arg : Text)
      → scan_name expr ≡ name
      → drop (length name) expr ≡ rest
      → split_operator rest ≡ some (op, arg)
      → eval_braced vars expand' expr raw ≡ eval_operator vars expand' name raw op arg
  unfolding eval_braced
  eval_braced_lem expr rest op arg e f g = rw (e, n.1, f, g, eval_braced) (rw e)

  -- `${NAME}`
  eval_braced-name : eval_braced vars expand' name raw ≡ plain_lookup vars name raw
  unfolding eval_operator
  eval_braced-name = eval_braced_lem name [] bare [] n.0 (drop_self name) split-bare

  -- `${NAME:-default}` with a value that is not empty
  eval_braced-set :
      (arg value : Text)
      → lookup name vars ≡ some value
      → is_empty value ≡ false
      → eval_braced vars expand' (name ++ (b':' ∷ b'-' ∷ arg)) raw
        ≡ record { text = value; src = from_env_file; notes = [] }
  unfolding eval_operator is_alpha is_digit
  eval_braced-set arg value h v =
      eval_braced_lem (name ++ (b':' ∷ b'-' ∷ arg)) (b':' ∷ b'-' ∷ arg) (default_if true) arg
        (scan_name-append name b':' (b'-' ∷ arg) n refl) (drop-append name (b':' ∷ b'-' ∷ arg))
        (split-default arg)
      ∙ ground arith

-- A text with a braced expression in it, and no dollar sign before.
expand-braced :
    (vars : Map Text) (pre body post : Text)
    → has_byte b'$' pre ≡ false
    → has_byte b'{' body ≡ false
    → has_byte b'}' body ≡ false
    → expand vars (pre ++ (b'$' ∷ b'{' ∷ (body ++ b'}' ∷ post)))
      ≡ plain pre
        <> eval_braced vars (λ arg. expand_at vars max_interp_depth arg) body (braced body)
        <> expand vars post
expand-braced vars pre body post h k l =
    let rec = λ (arg : Text). expand_at vars max_interp_depth arg in
    rw (expand_lem vars (pre ++ (b'$' ∷ b'{' ∷ (body ++ b'}' ∷ post))), expand_lem vars post)
      (expand_from-append vars rec pre (b'$' ∷ b'{' ∷ (body ++ b'}' ∷ post)) h
        ∙ ap (λ e. plain pre <> e) (expand_from-braced vars rec body post k l))

plain_lookup-set :
    (vars : Map Text) (name raw value : Text)
    → lookup name vars ≡ some value
    → plain_lookup vars name raw ≡ record { text = value; src = from_env_file; notes = [] }
unfolding plain_lookup
plain_lookup-set vars name raw value v = rw (v, plain_lookup)

-- What a reference to a name gives: the file's value, or, where the file sets none, the reference as
-- it is written, with the flag of the shell and one note that the name is not set.
pub referred : Map Text → Text → Expanded
referred vars name = elim (lookup name vars) [
  | some value ↦ record { text = value; src = from_env_file; notes = [] }
  | none ↦ record {
    text = b'$' ∷ b'{' ∷ (name ++ b'}' ∷ []);
    src = from_shell;
    notes = not_set name ∷ [];
  }
]

plain_lookup-referred :
    (vars : Map Text) (name : Text) → plain_lookup vars name (braced name) ≡ referred vars name
unfolding plain_lookup referred
plain_lookup-referred vars name = refl

-- A reference `${NAME}`, set or not: the text before it, which has no dollar sign, is copied; the
-- reference becomes the file's value in silence, or, if the file sets none, stays as written, is
-- flagged as left to the shell, and is told by a note; and the text behind it is substituted by itself.
pub expand-referred :
    (vars : Map Text) (pre name post : Text)
    → has_byte b'$' pre ≡ false
    → IsName name
    → expand vars (pre ++ (b'$' ∷ b'{' ∷ (name ++ b'}' ∷ post)))
      ≡ plain pre <> referred vars name <> expand vars post
expand-referred vars pre name post h n =
    let (k, l) = scan_name-plain name n in
    expand-braced vars pre name post h k l
    ∙ ap (λ e. plain pre <> e <> expand vars post)
        (eval_braced-name vars (λ arg. expand_at vars max_interp_depth arg) name (braced name) n
          ∙ plain_lookup-referred vars name)

-- A reference `${NAME}` to a variable that the file sets becomes its value; the text before it,
-- which has no dollar sign, is copied, and the text behind it is substituted by itself, with the
-- notes that it makes by itself.
pub expand-reference :
    (vars : Map Text) (pre name post value : Text)
    → has_byte b'$' pre ≡ false
    → IsName name
    → lookup name vars ≡ some value
    → ((expand vars (pre ++ (b'$' ∷ b'{' ∷ (name ++ b'}' ∷ post)))).text
        ≡ pre ++ (value ++ (expand vars post).text))
      × ((expand vars (pre ++ (b'$' ∷ b'{' ∷ (name ++ b'}' ∷ post)))).notes
          ≡ (expand vars post).notes)
expand-reference vars pre name post value h n v =
    let (k, l) = scan_name-plain name n in
    let e =
      expand-braced vars pre name post h k l
      ∙ ap (λ e. plain pre <> e <> expand vars post)
          (eval_braced-name vars (λ arg. expand_at vars max_interp_depth arg) name (braced name) n
            ∙ plain_lookup-set vars name (braced name) value v) in
    (ap (λ r. r.text) e, ap (λ r. r.notes) e)

default-plain :
    (c : ℕ) (name arg : Text)
    → has_byte c name ≡ false
    → has_byte c arg ≡ false
    → ((b':' == c) || (b'-' == c)) ≡ false
    → has_byte c (name ++ (b':' ∷ b'-' ∷ arg)) ≡ false
unfolding has_byte
default-plain c name arg h k d = ground (arith, has_byte-append c name (b':' ∷ b'-' ∷ arg))

-- A default behind `:-` that is not reached is not read: where the file sets the variable to a text
-- that is not empty, the value takes the expression's place, and neither the default, which holds no
-- braces, nor what it refers to leaves a trace in the text or in the notes.
pub expand-default_unread :
    (vars : Map Text) (pre name arg post value : Text)
    → has_byte b'$' pre ≡ false
    → IsName name
    → has_byte b'{' arg ≡ false
    → has_byte b'}' arg ≡ false
    → lookup name vars ≡ some value
    → is_empty value ≡ false
    → expand vars (pre ++ (b'$' ∷ b'{' ∷ ((name ++ (b':' ∷ b'-' ∷ arg)) ++ b'}' ∷ post)))
      ≡ plain pre <> record { text = value; src = from_env_file; notes = [] } <> expand vars post
expand-default_unread vars pre name arg post value h n k l v e =
    let (p, q) = scan_name-plain name n in
    let body = name ++ (b':' ∷ b'-' ∷ arg) in
    expand-braced vars pre body post h (default-plain b'{' name arg p k refl)
      (default-plain b'}' name arg q l refl)
    ∙ ap (λ e. plain pre <> e <> expand vars post)
        (eval_braced-set vars (λ arg. expand_at vars max_interp_depth arg) name (braced body) n arg
          value v e)
