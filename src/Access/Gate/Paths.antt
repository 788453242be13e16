-- ===== src/Access/Gate/Paths.antt =====
-- The form of a normalised path (gate.go, `Normalise`).
use labview.Common.{
  ℕ, ◌≡◌, ◌⊎◌, inl, inr, refl, ap, Bool, true, false, ◌&&◌, not, List, [], ◌∷◌, ◌++◌, Option, some,
  arith, Bool-cases, ◌==◌, ltb, length, if◌then◌else◌, Option-cases,
}
use labview.Common.Text.{Text, codes, contains, contains-append, split_byte, text_eq, before}
use labview.Access.Gate.{collapse, trim_slash, normal_path, normalise, ends_path}

-- No slash stands behind another, or behind the byte before the text.
unfoldable pub single : ℕ → Text → Bool
single previous [] = true
single previous (b ∷ s) = not ((b == b'/') && (previous == b'/')) && single b s

unfoldable pub ends_slash : Text → Bool
ends_slash [] = false
ends_slash (b ∷ []) = b == b'/'
ends_slash (b ∷ c ∷ s) = ends_slash (c ∷ s)

pub record IsCanonical (p : Text) : Type 0 where
  pub rest : Text
  pub rooted : p ≡ b'/' ∷ rest
  pub singly : single b'/' rest ≡ true
  pub undotted : contains (codes "..") (split_byte b'/' p) ≡ false
  pub trimmed : (rest ≡ []) ⊎ (ends_slash p ≡ false)

single-collapse : (c : ℕ) (s : Text) → single c (collapse c s) ≡ true
unfolding single collapse
single-collapse c [] = refl
single-collapse c (b ∷ s) = ground (arith, single-collapse b s)

collapse-single : (c : ℕ) (s : Text) → single c s ≡ true → collapse c s ≡ s
unfolding single collapse
collapse-single c [] h = refl
collapse-single c (b ∷ s) h = ground (arith, collapse-single b s)

single-trim : (c : ℕ) (s : Text) → single c s ≡ true → single c (trim_slash s) ≡ true
unfolding single trim_slash
single-trim c [] h = refl
single-trim c (b ∷ []) h = ground arith
single-trim c (b ∷ d ∷ s) h = ground (arith, single-trim b (d ∷ s))

ends_slash-trim : (b : ℕ) (s : Text) → single b s ≡ true → ends_slash (trim_slash (b ∷ s)) ≡ false
unfolding single trim_slash ends_slash
ends_slash-trim b [] h = ground arith
ends_slash-trim b (c ∷ []) h = ground arith
ends_slash-trim b (c ∷ d ∷ s) h = ground (arith, ends_slash-trim c (d ∷ s))

trim-unslashed : (s : Text) → ends_slash s ≡ false → trim_slash s ≡ s
unfolding trim_slash ends_slash
trim-unslashed [] h = refl
trim-unslashed (b ∷ []) h = ground arith
trim-unslashed (b ∷ c ∷ s) h = ap (λ t. b ∷ t) (trim-unslashed (c ∷ s) h)

-- Without a slash at the end, a text has the same segments but perhaps an empty last one.
record IsSplit (s : Text) : Type 0 where
  head : Text
  tail : List Text
  short : List Text
  whole : split_byte b'/' s ≡ head ∷ tail
  trimmed : split_byte b'/' (trim_slash s) ≡ head ∷ short
  same : (tail ≡ short) ⊎ (tail ≡ short ++ [] ∷ [])

undotted_root : contains (codes "..") (split_byte b'/' (codes "/")) ≡ false
unfolding contains split_byte text_eq
undotted_root = refl

IsSplit-trim : (s : Text) → IsSplit s
unfolding split_byte trim_slash
IsSplit-trim [] = record {
  head = [];
  tail = [];
  short = [];
  whole = refl;
  trimmed = refl;
  same = inl refl;
}
IsSplit-trim (b ∷ []) = elim (Bool-cases (b == b'/')) [
  | inl e ↦ record {
    head = [];
    tail = [] ∷ [];
    short = [];
    whole = ground arith;
    trimmed = ground arith;
    same = inr refl;
  }
  | inr e ↦ record {
    head = b ∷ [];
    tail = [];
    short = [];
    whole = ground arith;
    trimmed = ground arith;
    same = inl refl;
  }
]
IsSplit-trim (b ∷ c ∷ s) =
    let i = IsSplit-trim (c ∷ s) in
    elim (Bool-cases (b == b'/')) [
      | inl e ↦ record {
        head = [];
        tail = i.head ∷ i.tail;
        short = i.head ∷ i.short;
        whole = ground (arith, i.whole);
        trimmed = ground (arith, i.trimmed);
        same = ground (arith, i.same);
      }
      | inr e ↦ record {
        head = b ∷ i.head;
        tail = i.tail;
        short = i.short;
        whole = ground (arith, i.whole);
        trimmed = ground (arith, i.trimmed);
        same = i.same;
      }
    ]

undotted-trim :
    (s : Text)
    → contains (codes "..") (split_byte b'/' s) ≡ false
    → contains (codes "..") (split_byte b'/' (trim_slash s)) ≡ false
unfolding contains text_eq
undotted-trim s h =
    let i = IsSplit-trim s in
    ground (arith, i.whole, i.trimmed, i.same, contains-append (codes "..") i.short ([] ∷ []))

-- A path whose slashes are single, without its last one.
trimmed-IsCanonical :
    (b : ℕ) (t p : Text)
    → b ≡ b'/'
    → single b t ≡ true
    → contains (codes "..") (split_byte b'/' (b ∷ t)) ≡ false
    → (if ltb 1 (length (b ∷ t)) then trim_slash (b ∷ t) else b ∷ t) ≡ p
    → IsCanonical p
unfolding single trim_slash
trimmed-IsCanonical b [] p r o u h = record {
  rest = [];
  rooted = ground arith;
  singly = refl;
  undotted = ground arith;
  trimmed = inl refl;
}
trimmed-IsCanonical b (c ∷ t) p r o u h =
    let cut : trim_slash (b ∷ c ∷ t) ≡ p = ground arith in
    let trim_cons : trim_slash (b ∷ c ∷ t) ≡ b ∷ trim_slash (c ∷ t) = refl in
    record {
      rest = trim_slash (c ∷ t);
      rooted = ground (arith, cut, trim_cons);
      singly = rw r at (single-trim b (c ∷ t) o);
      undotted = rw cut at (undotted-trim (b ∷ c ∷ t) u);
      trimmed = inr (rw cut at (ends_slash-trim b (c ∷ t) o));
    }

normal_path-IsCanonical : (s p : Text) → normal_path s ≡ some p → IsCanonical p
unfolding normal_path single
normal_path-IsCanonical [] p h = record {
  rest = [];
  rooted = ground arith;
  singly = refl;
  undotted = ground (arith, undotted_root);
  trimmed = inl refl;
}
normal_path-IsCanonical (b ∷ s) p h =
    trimmed-IsCanonical b (collapse b s) p (ground arith) (single-collapse b s) (ground arith)
      (ground arith)

IsCanonical-fixed : (p : Text) → IsCanonical p → normal_path p ≡ some p
unfolding normal_path ends_slash
IsCanonical-fixed [] h = absurd (ground (arith, h.rooted))
IsCanonical-fixed (b ∷ s) h = elim h.trimmed [
  | inl e ↦ ground (arith, h.rooted, h.undotted, h.singly, collapse-single b s, collapse)
  | inr e ↦
      ground (arith, h.rooted, h.undotted, h.singly, collapse-single b s, trim-unslashed (b ∷ s))
]

-- A path that the gate normalised is rooted, no slash of it stands behind another, none stands at
-- its end unless it is the root, and no segment of it is `..`; and where nothing in it is left to
-- decode, and no query to cut, normalising it again gives it back.
pub normalise-IsCanonical :
    (unescape : Text → Option Text) (path p : Text)
    → normalise unescape path ≡ some p
    → IsCanonical p × (unescape (before ends_path p) ≡ some p → normalise unescape p ≡ some p)
unfolding normalise
normalise-IsCanonical unescape path p h = elim (Option-cases (unescape (before ends_path path))) [
  | inl e ↦ absurd (ground arith)
  | inr (decoded, e) ↦
      let c = normal_path-IsCanonical decoded p (ground arith) in
      (c, λ kept. rw (normalise, kept) (IsCanonical-fixed p c))
]
