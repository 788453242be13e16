-- ===== src/Secrets/Idempotent.antt =====
-- Redacting twice is redacting once (secrets.go).
use labview.Common.{
  ℕ, zero, suc, ◌≤◌, ◌≡◌, ◌⊎◌, refl, ap, ◌∙◌, true, false, [], ◌∷◌, ◌++◌, none, some, arith,
  Option-cases, inl, inr, length, append_assoc,
}
use labview.Common.Text.{Text, codes, has_byte, cut_byte, cut_byte_sound, before}
use labview.Secrets.{
  mask, cut_mark, ends_authority, from_end, cut_last, redact_authority, redact_round, redact_uris,
}
use labview.Secrets.Redacted.{redact_uris_loop, cut_mark-length, from_end-length}
use labview.Secrets.Masked.{
  credentials, unended, starts_ended, unended-before, starts_ended-from_end, before-append,
  from_end-append, unended-append, cut_last_sound, cut_mark_sound, cut_mark_again,
  redact_authority-credentials,
}

none_of_nil : cut_mark [] ≡ none
unfolding cut_mark
none_of_nil = refl

-- An authority is left alone, or is a user, a password and a host.
redact_authority-cases :
    (a : Text)
    → (redact_authority a ≡ a)
      ⊎ ((user : Text) × (password : Text) × (host : Text) × (a ≡ credentials user password host)
          × (has_byte b':' user ≡ false)
          × (has_byte b'@' host ≡ false))
unfolding redact_authority
redact_authority-cases a = elim (Option-cases (cut_last b'@' a)) [
  | inl e ↦ inl (rw (e, redact_authority) refl)
  | inr ((info, host), e) ↦ elim (Option-cases (cut_byte b':' info)) [
    | inl f ↦ inl (rw (e, redact_authority, f) refl)
    | inr ((user, password), f) ↦
        let split = cut_last_sound b'@' a info host e in
        let inner = cut_byte_sound b':' info user password f in
        inr (
          user,
          password,
          host,
          split.0 ∙ rw inner.0 (append_assoc user (b':' ∷ password) (b'@' ∷ host)),
          inner.1,
          split.1,
        )
  ]
]

redact_authority_twice : (a : Text) → redact_authority (redact_authority a) ≡ redact_authority a
redact_authority_twice a = elim (redact_authority-cases a) [
  | inl e ↦ ap redact_authority e
  | inr (user, password, host, e, u, h) ↦
      rw (e, redact_authority-credentials user password host u h)
        (redact_authority-credentials user mask host u h)
]

unended-mask :
    (user password host : Text)
    → unended (credentials user password host) ≡ true
    → unended (credentials user mask host) ≡ true
unfolding unended
unended-mask user password host h = ground (
  arith,
  unended-append user (b':' ∷ (password ++ b'@' ∷ host)),
  unended-append password (b'@' ∷ host),
  unended-append user (b':' ∷ (mask ++ b'@' ∷ host)),
)

unended-redact_authority : (a : Text) → unended a ≡ true → unended (redact_authority a) ≡ true
unended-redact_authority a h = elim (redact_authority-cases a) [
  | inl e ↦ rw e h
  | inr (user, password, host, e, u, at) ↦
      rw (e, redact_authority-credentials user password host u at)
        (unended-mask user password host (rw e at h))
]

redact_uris-none : (s : Text) → cut_mark s ≡ none → redact_uris s ≡ s
unfolding redact_round
redact_uris-none s e = redact_uris_loop s ∙ rw (redact_round, e) refl

redact_uris-some :
    (s a b : Text)
    → cut_mark s ≡ some (a, b)
    → redact_uris s
      ≡ a
        ++ (codes "://" ++ (redact_authority (before ends_authority b) ++ redact_uris (from_end b)))
unfolding redact_round redact_authority
redact_uris-some s a b e = redact_uris_loop s ∙ rw (redact_round, e) refl

starts_ended-redact_uris : (s : Text) → starts_ended s ≡ true → starts_ended (redact_uris s) ≡ true
starts_ended-redact_uris s h = elim (Option-cases (cut_mark s)) [
  | inl e ↦ rw (redact_uris-none s e) h
  | inr (([], b), e) ↦ absurd (ground (arith, rw (cut_mark_sound s [] b e) at h))
  | inr ((x ∷ a, b), e) ↦
      rw (redact_uris-some s (x ∷ a) b e) (rw (cut_mark_sound s (x ∷ a) b e) at h)
]

redact_uris_again : (n : ℕ) (s : Text) → length s ≤ n → redact_uris (redact_uris s) ≡ redact_uris s
redact_uris_again zero [] h = redact_uris-none _ (rw (redact_uris-none [] none_of_nil) none_of_nil)
redact_uris_again zero (x ∷ s) h = absurd (omega (arith, h))
redact_uris_again (suc n) s h = elim (Option-cases (cut_mark s)) [
  | inl e ↦ ap redact_uris (redact_uris-none s e)
  | inr ((a, b), e) ↦
      let shown = redact_authority (before ends_authority b) in
      let rest = redact_uris (from_end b) in
      let clean = unended-redact_authority (before ends_authority b) (unended-before b) in
      let next = starts_ended-redact_uris (from_end b) (starts_ended-from_end b) in
      let ih =
        redact_uris_again n (from_end b)
          (omega (arith, cut_mark-length s a b e, from_end-length b)) in
      rw (redact_uris-some s a b e) (
        redact_uris-some (a ++ (codes "://" ++ (shown ++ rest))) a (shown ++ rest)
          (cut_mark_again s a b (shown ++ rest) e)
        ∙ rw
            (
              before-append shown rest clean next,
              from_end-append shown rest clean next,
              redact_authority_twice (before ends_authority b),
              ih,
            )
            refl)
]

-- What was redacted is left as it is.
pub redact_uris_twice : (s : Text) → redact_uris (redact_uris s) ≡ redact_uris s
redact_uris_twice s = redact_uris_again (length s) s (omega arith)
