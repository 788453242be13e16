-- ===== src/Secrets/Masked.antt =====
-- What a redacted text still shows (secrets.go).
use labview.Common.{
  ℕ, ◌≡◌, refl, sym, ◌∙◌, Bool, true, false, ◌&&◌, not, [], ◌∷◌, ◌++◌, none, some, arith,
  Bool-cases, Option-cases, inl, inr, append_assoc,
}
use labview.Common.Text.{Text, codes, has_prefix, has_byte, cut_byte_complete, before}
use labview.Secrets.{
  mask, cut_mark, ends_authority, from_end, cut_last, redact_authority, redact_round, redact_uris,
}
use labview.Secrets.Redacted.{redact_uris_loop}

-- No byte of a text ends an authority.
unfoldable pub unended : Text → Bool
unended [] = true
unended (x ∷ xs) = not (ends_authority x) && unended xs

-- A text is empty, or begins with a byte that ends an authority.
abbrev pub starts_ended : Text → Bool
starts_ended [] = true
starts_ended (x ∷ xs) = ends_authority x

before-from_end : (s : Text) → s ≡ before ends_authority s ++ from_end s
unfolding before from_end
before-from_end [] = refl
before-from_end (x ∷ s) = ground (arith, before-from_end s)

pub unended-before : (s : Text) → unended (before ends_authority s) ≡ true
unfolding before unended
unended-before [] = refl
unended-before (x ∷ s) = ground (arith, unended-before s)

pub starts_ended-from_end : (s : Text) → starts_ended (from_end s) ≡ true
unfolding from_end
starts_ended-from_end [] = refl
starts_ended-from_end (x ∷ s) = ground (arith, starts_ended-from_end s)

pub before-append :
    (a rest : Text)
    → unended a ≡ true
    → starts_ended rest ≡ true
    → before ends_authority (a ++ rest) ≡ a
unfolding before unended
before-append [] [] h k = refl
before-append [] (x ∷ rest) h k = ground arith
before-append (x ∷ a) rest h k = ground (arith, before-append a rest)

pub from_end-append :
    (a rest : Text) → unended a ≡ true → starts_ended rest ≡ true → from_end (a ++ rest) ≡ rest
unfolding from_end unended
from_end-append [] [] h k = refl
from_end-append [] (x ∷ rest) h k = ground arith
from_end-append (x ∷ a) rest h k = ground (arith, from_end-append a rest)

pub unended-append : (a b : Text) → unended (a ++ b) ≡ (unended a && unended b)
unfolding unended
unended-append [] b = refl
unended-append (x ∷ a) b = ground (arith, unended-append a b)

cut_last_absent : (c : ℕ) (s : Text) → cut_last c s ≡ none → has_byte c s ≡ false
unfolding cut_last has_byte
cut_last_absent c [] h = refl
cut_last_absent c (x ∷ s) h = elim (Option-cases (cut_last c s)) [
  | inl e ↦ ground (arith, cut_last_absent c s e)
  | inr ((a, b), e) ↦ absurd (ground arith)
]

pub cut_last-none : (c : ℕ) (s : Text) → has_byte c s ≡ false → cut_last c s ≡ none
unfolding cut_last has_byte
cut_last-none c [] h = refl
cut_last-none c (x ∷ s) h = ground (arith, cut_last-none c s)

-- The last separator is the one that nothing behind holds.
pub cut_last_sound :
    (c : ℕ) (s a b : Text) → cut_last c s ≡ some (a, b) → (s ≡ a ++ c ∷ b) × (has_byte c b ≡ false)
unfolding cut_last
cut_last_sound c [] a b h = absurd (ground arith)
cut_last_sound c (x ∷ s) a b h = elim (Option-cases (cut_last c s)) [
  | inl e ↦ ground (arith, cut_last_absent c s e)
  | inr ((p, q), e) ↦ ground (arith, cut_last_sound c s p q e)
]

pub cut_last_complete :
    (c : ℕ) (a b : Text) → has_byte c b ≡ false → cut_last c (a ++ c ∷ b) ≡ some (a, b)
unfolding cut_last
cut_last_complete c [] b h = rw (cut_last-none c b h) (ground arith)
cut_last_complete c (x ∷ a) b h = rw (cut_last_complete c a b h) refl

pub cut_mark_sound : (s a b : Text) → cut_mark s ≡ some (a, b) → s ≡ a ++ (codes "://" ++ b)
unfolding cut_mark has_prefix
cut_mark_sound [] a b h = absurd (ground arith)
cut_mark_sound (x ∷ []) a b h = absurd (ground arith)
cut_mark_sound (x ∷ y ∷ []) a b h = absurd (ground arith)
cut_mark_sound (x ∷ y ∷ z ∷ s) a b h = elim (Option-cases (cut_mark (y ∷ z ∷ s))) [
  | inl e ↦ ground arith
  | inr ((p, q), e) ↦ ground (arith, cut_mark_sound (y ∷ z ∷ s) p q e)
]

-- Whether a mark begins here does not hang on what follows a later mark.
no_mark :
    (x : ℕ) (p q other : Text)
    → has_prefix (x ∷ (p ++ (codes "://" ++ q))) (codes "://") ≡ false
    → has_prefix (x ∷ (p ++ (codes "://" ++ other))) (codes "://") ≡ false
unfolding has_prefix
no_mark x [] q other h = ground arith
no_mark x (y ∷ []) q other h = ground arith
no_mark x (y ∷ z ∷ p) q other h = h

cut_mark_here : (b : Text) → cut_mark (codes "://" ++ b) ≡ some ([], b)
unfolding cut_mark has_prefix
cut_mark_here b = refl

-- What stands before the first mark decides where it is, whatever follows.
pub cut_mark_again :
    (s a b other : Text)
    → cut_mark s ≡ some (a, b)
    → cut_mark (a ++ (codes "://" ++ other)) ≡ some (a, other)
unfolding cut_mark
cut_mark_again [] a b other h = absurd (ground arith)
cut_mark_again (x ∷ s) a b other h = elim (Bool-cases (has_prefix (x ∷ s) (codes "://"))) [
  | inl m ↦ let start : [] ≡ a = ground arith in rw (← start) (cut_mark_here other)
  | inr m ↦ elim (Option-cases (cut_mark s)) [
    | inl e ↦ absurd (ground arith)
    | inr ((p, q), e) ↦
        let start : x ∷ p ≡ a = ground arith in
        let later = no_mark x p q other (rw (cut_mark_sound s p q e) at m) in
        rw (← start) (rw (cut_mark, later, cut_mark_again s p q other e) refl)
  ]
]

-- Text before a mark that holds no colon hides none.
pub cut_mark_complete :
    (a b : Text) → has_byte b':' a ≡ false → cut_mark (a ++ (codes "://" ++ b)) ≡ some (a, b)
unfolding cut_mark has_byte has_prefix
cut_mark_complete [] b h = refl
cut_mark_complete (x ∷ a) b h = ground (arith, cut_mark_complete a b)

-- The redacted form of a user, a password and a host.
abbrev pub credentials : Text → Text → Text → Text
credentials user password host = user ++ b':' ∷ (password ++ b'@' ∷ host)

pub redact_authority-credentials :
    (user password host : Text)
    → has_byte b':' user ≡ false
    → has_byte b'@' host ≡ false
    → redact_authority (credentials user password host) ≡ credentials user mask host
unfolding redact_authority
redact_authority-credentials user password host u h =
    let whole : credentials user password host ≡ (user ++ b':' ∷ password) ++ b'@' ∷ host =
      sym (append_assoc user (b':' ∷ password) (b'@' ∷ host)) in
    rw
      (
        whole,
        cut_last_complete b'@' (user ++ b':' ∷ password) host h,
        redact_authority,
        cut_byte_complete b':' user password u,
      )
      refl

-- A URI whose user, password and host hold no byte that ends an authority, such as a slash, is redacted
-- to the same whatever the password is: up to the colon and from the `@` on it is unchanged. What
-- follows, which is nothing or begins with such a byte, is redacted in turn. The text before the mark
-- and the user hold no colon, and the host no `@`.
pub redact_uris-credentials :
    (head user password host rest : Text)
    → has_byte b':' head ≡ false
    → has_byte b':' user ≡ false
    → has_byte b'@' host ≡ false
    → unended (credentials user password host) ≡ true
    → starts_ended rest ≡ true
    → redact_uris (head ++ (codes "://" ++ (credentials user password host ++ rest)))
      ≡ head ++ (codes "://" ++ (credentials user mask host ++ redact_uris rest))
unfolding redact_round
redact_uris-credentials head user password host rest p u h whole e =
    redact_uris_loop (head ++ (codes "://" ++ (credentials user password host ++ rest)))
    ∙ rw
        (
          redact_round,
          cut_mark_complete head (credentials user password host ++ rest) p,
          before-append (credentials user password host) rest whole e,
          from_end-append (credentials user password host) rest whole e,
          redact_authority-credentials user password host u h,
        )
        refl
