-- ===== src/Scan/Interp/Laws.antt =====
-- What substitution leaves alone, and when it says so (interp.go).
use labview.Common.{
  ℕ, zero, suc, ◌≡◌, ◌≢◌, ◌↔◌, refl, sym, ◌∙◌, Bool, true, false, ◌||◌, inl, inr, Bool-cases,
  Option-cases, List, [], ◌∷◌, ◌++◌, arith, ◌==◌, if◌then◌else◌, length, drop,
}
use labview.Common.Text.{Text, codes, is_empty, has_byte, has_prefix}
use labview.Common.Map.{Map}
use labview.Scan.Interp.{
  Note, Expanded, ◌<>◌, plain, Operator, bare, default_if, required_if, plain_lookup, eval_operator,
  eval_braced, Round, piece, last, dollar, round, expand_from, expand_at, expand, match_brace,
  split_operator, scan_name, max_interp_depth,
}

abbrev has_notes : List Note → Bool
has_notes [] = false
has_notes (n ∷ ns) = true

has_notes-append : (xs ys : List Note) → has_notes (xs ++ ys) ≡ (has_notes xs || has_notes ys)
has_notes-append [] ys = refl
has_notes-append (x ∷ xs) ys = refl

-- A result says where it left something as written.
abbrev Tells : Expanded → Type 0
Tells e = e.src.shell ≡ has_notes e.notes

abbrev TellsRound : Round → Type 0
TellsRound (piece e n) = Tells e
TellsRound (last e) = Tells e

Tells-<> : (a b : Expanded) → Tells a → Tells b → Tells (a <> b)
Tells-<> a b p q = ground (arith, has_notes-append a.notes b.notes)

module _ (vars : Map Text) (expand' : Text → Expanded)
    (tells : (arg : Text) → Tells (expand' arg)) where
  plain_lookup-Tells : (name raw : Text) → Tells (plain_lookup vars name raw)
  unfolding plain_lookup
  plain_lookup-Tells name raw = ground arith

  eval_operator-Tells :
      (name raw : Text) (op : Operator) (arg : Text)
      → Tells (eval_operator vars expand' name raw op arg)
  unfolding eval_operator plain_lookup
  eval_operator-Tells name raw bare arg = ground arith
  eval_operator-Tells name raw (default_if colon) arg = ground (arith, tells arg)
  eval_operator-Tells name raw (required_if colon) arg = ground arith

  eval_braced-Tells : (expr raw : Text) → Tells (eval_braced vars expand' expr raw)
  unfolding eval_braced
  eval_braced-Tells expr raw =
      elim (Option-cases (split_operator (drop (length (scan_name expr)) expr))) [
        | inl e ↦ rw (e, eval_braced) (ground arith)
        | inr ((op, arg), e) ↦
            rw (e, eval_braced) (ground (arith, eval_operator-Tells (scan_name expr) raw op arg))
      ]

  dollar-Tells : (s : Text) → TellsRound (dollar vars expand' s)
  unfolding dollar
  dollar-Tells s = elim (Bool-cases (has_prefix s (codes "$"))) [
    | inl e ↦ rw (e, dollar) refl
    | inr e ↦ elim (Bool-cases (has_prefix s (codes "{"))) [
      | inl f ↦ elim (Option-cases (match_brace s)) [
        | inl g ↦ rw (e, f, g, dollar) refl
        | inr (end, g) ↦ rw (e, f, g, dollar) (eval_braced-Tells _ _)
      ]
      | inr f ↦ elim (Bool-cases (is_empty (scan_name s))) [
        | inl g ↦ rw (e, f, g, dollar) refl
        | inr g ↦ rw (e, f, g, dollar) (plain_lookup-Tells (scan_name s) (b'$' ∷ scan_name s))
      ]
    ]
  ]

  round-Tells : (c : ℕ) (s : Text) → TellsRound (round vars expand' c s)
  unfolding round
  round-Tells c s = elim (Bool-cases (c == b'$')) [
    | inl e ↦ rw (e, round) (dollar-Tells s)
    | inr e ↦ rw (e, round) refl
  ]

  expand_from-Tells : (skip : ℕ) (s : Text) → Tells (expand_from vars expand' skip s)
  unfolding expand_from
  expand_from-Tells zero [] = refl
  expand_from-Tells (suc skip) [] = refl
  expand_from-Tells (suc skip) (c ∷ s) = expand_from-Tells skip s
  expand_from-Tells zero (c ∷ s) =
      go (round vars expand' c s) (round-Tells c s) (λ n. expand_from-Tells n s)
    where
      go :
          (r : Round)
          → TellsRound r
          → ((n : ℕ) → Tells (expand_from vars expand' n s))
          → Tells (elim r [ last e ↦ e | piece e n ↦ e <> expand_from vars expand' n s ])
      go (last e) t rest = t
      go (piece e n) t rest = Tells-<> e (expand_from vars expand' n s) t (rest n)

expand_at-Tells : (vars : Map Text) (levels : ℕ) (s : Text) → Tells (expand_at vars levels s)
unfolding expand_at
expand_at-Tells vars zero s = refl
expand_at-Tells vars (suc levels) s =
    expand_from-Tells vars (λ arg. expand_at vars levels arg)
      (λ arg. expand_at-Tells vars levels arg) 0 s

has_notes_iff : (e : Expanded) → Tells e → (e.src.shell ≡ true) ↔ (e.notes ≢ [])
has_notes_iff e t = (λ h n. ground arith, λ h. ground arith)

expand-Tells : (vars : Map Text) (s : Text) → Tells (expand vars s)
unfolding expand
expand-Tells vars s = elim (Bool-cases (has_byte b'$' s)) [
  | inl e ↦ rw (e, expand) (expand_at-Tells vars (suc max_interp_depth) s)
  | inr e ↦ rw (e, expand) refl
]

-- The flag of the shell is set exactly if a note is made.
pub notes_iff_shell :
    (vars : Map Text) (s : Text) → ((expand vars s).src.shell ≡ true) ↔ ((expand vars s).notes ≢ [])
notes_iff_shell vars s = has_notes_iff (expand vars s) (expand-Tells vars s)

-- Doubling each dollar sign, which is how a compose file writes one.
pub escape : Text → Text
escape [] = []
escape (c ∷ s) = let rest = escape s in if c == b'$' then c ∷ c ∷ rest else c ∷ rest

module _ (vars : Map Text) (expand' : Text → Expanded) where
  round-other :
      (c : ℕ) (s : Text) → (c == b'$') ≡ false → round vars expand' c s ≡ piece (plain (c ∷ [])) 0
  unfolding round
  round-other c s e = rw e

  round-doubled :
      (c : ℕ) (s : Text)
      → (c == b'$') ≡ true
      → round vars expand' c (c ∷ s) ≡ piece (plain (codes "$")) 1
  unfolding round dollar has_prefix
  round-doubled c s e = rw e

  expand_from-other :
      (c : ℕ) (s : Text)
      → (c == b'$') ≡ false
      → expand_from vars expand' 0 (c ∷ s) ≡ plain (c ∷ []) <> expand_from vars expand' 0 s
  unfolding expand_from
  expand_from-other c s e = rw (round-other c s e, expand_from)

  expand_from-doubled :
      (c : ℕ) (s : Text)
      → (c == b'$') ≡ true
      → expand_from vars expand' 0 (c ∷ c ∷ s) ≡ plain (codes "$") <> expand_from vars expand' 0 s
  unfolding expand_from
  expand_from-doubled c s e = rw (round-doubled c s e, expand_from)

  expand_from-escape : (s : Text) → expand_from vars expand' 0 (escape s) ≡ plain s
  unfolding expand_from escape
  expand_from-escape [] = refl
  expand_from-escape (c ∷ s) = elim (Bool-cases (c == b'$')) [
    | inl e ↦
        rw (e, escape)
          (rw (expand_from-doubled c (escape s) e) (rw (expand_from-escape s) (ground arith)))
    | inr e ↦
        rw (e, escape) (rw (expand_from-other c (escape s) e) (rw (expand_from-escape s) refl))
  ]

  expand_from-plain : (s : Text) → has_byte b'$' s ≡ false → expand_from vars expand' 0 s ≡ plain s
  unfolding expand_from has_byte
  expand_from-plain [] h = refl
  expand_from-plain (c ∷ s) h =
      rw (expand_from-other c s (ground arith)) (rw (expand_from-plain s (ground arith)) refl)

  -- Text before the first dollar sign is copied.
  pub expand_from-append :
      (s t : Text)
      → has_byte b'$' s ≡ false
      → expand_from vars expand' 0 (s ++ t) ≡ plain s <> expand_from vars expand' 0 t
  unfolding has_byte
  expand_from-append [] t h = refl
  expand_from-append (c ∷ s) t h =
      rw (expand_from-other c (s ++ t) (ground arith))
        (rw (expand_from-append s t (ground arith)) refl)

-- Text without a dollar sign: the loop agrees with the shortcut before it, at every depth that is
-- evaluated.
pub expand_at-plain :
    (vars : Map Text) (levels : ℕ) (s : Text)
    → has_byte b'$' s ≡ false
    → expand_at vars (suc levels) s ≡ expand vars s
unfolding expand_at expand
expand_at-plain vars levels s h =
    rw h (expand_from-plain vars (λ arg. expand_at vars levels arg) s h)

expand_at_step :
    (vars : Map Text) (levels : ℕ) (s : Text)
    → expand_at vars (suc levels) s ≡ expand_from vars (λ arg. expand_at vars levels arg) 0 s
unfolding expand_at
expand_at_step vars levels s = refl

-- Substitution is the loop at the first depth, with the shortcut or without.
pub expand_lem :
    (vars : Map Text) (s : Text)
    → expand vars s ≡ expand_from vars (λ arg. expand_at vars max_interp_depth arg) 0 s
unfolding expand
expand_lem vars s = elim (Bool-cases (has_byte b'$' s)) [
  | inl e ↦ rw (e, expand) (expand_at_step vars max_interp_depth s)
  | inr e ↦
      rw (e, expand) (sym (expand_from-plain vars (λ arg. expand_at vars max_interp_depth arg) s e))
]

-- An escaped text comes back as it was, with no source and no note, whatever the file sets.
pub expand-escape : (vars : Map Text) (s : Text) → expand vars (escape s) ≡ plain s
expand-escape vars s =
    expand_lem vars (escape s)
    ∙ expand_from-escape vars (λ arg. expand_at vars max_interp_depth arg) s
