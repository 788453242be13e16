-- ===== src/Secrets/Redacted.antt =====
-- The loop of `RedactURIs` ends by itself, and hides every password (secrets.go).
use labview.Common.{
  ℕ, zero, suc, ◌+◌, ◌≤◌, ◌<◌, ◌≡◌, refl, sym, ◌∙◌, [], ◌∷◌, some, arith, Option-cases, inl, inr,
  length,
}
use labview.Common.Text.{Text, has_prefix}
use labview.Secrets.{cut_mark, from_end, redact_round, redact_from, redact_uris}

-- A text without a mark is as it was; else three bytes at least are behind the loop.
pub cut_mark-length : (s a b : Text) → cut_mark s ≡ some (a, b) → length a + length b + 3 ≡ length s
unfolding cut_mark has_prefix
cut_mark-length [] a b h = absurd (ground arith)
cut_mark-length (x ∷ []) a b h = absurd (ground arith)
cut_mark-length (x ∷ y ∷ []) a b h = absurd (ground arith)
cut_mark-length (x ∷ y ∷ z ∷ s) a b h = elim (Option-cases (cut_mark (y ∷ z ∷ s))) [
  | inl e ↦ ground arith
  | inr ((p, q), e) ↦ ground (arith, cut_mark-length (y ∷ z ∷ s) p q e)
]

pub from_end-length : (s : Text) → length (from_end s) ≤ length s
unfolding from_end
from_end-length [] = omega arith
from_end-length (x ∷ s) = ground (arith, from_end-length s)

-- A turn asks for the rest of shorter texts alone.
redact_round-agree :
    (f g : Text → Text) (s : Text)
    → ((t : Text) → length t < length s → f t ≡ g t)
    → redact_round f s ≡ redact_round g s
unfolding redact_round
redact_round-agree f g s same = elim (Option-cases (cut_mark s)) [
  | inl e ↦ rw (e, redact_round) refl
  | inr ((head, tail), e) ↦
      rw
        (
          e,
          redact_round,
          same (from_end tail) (omega (arith, cut_mark-length s head tail e, from_end-length tail)),
        )
        refl
]

redact_from-nil : (fuel : ℕ) → redact_from fuel [] ≡ []
unfolding redact_from redact_round cut_mark
redact_from-nil zero = refl
redact_from-nil (suc fuel) = refl

-- With as much fuel as the text is long, more changes nothing.
redact_from-agree :
    (f g : ℕ) (s : Text) → length s ≤ f → length s ≤ g → redact_from f s ≡ redact_from g s
unfolding redact_from
redact_from-agree zero g [] h k = sym (redact_from-nil g)
redact_from-agree zero g (x ∷ s) h k = absurd (omega (arith, h))
redact_from-agree (suc f) zero [] h k = redact_from-nil (suc f)
redact_from-agree (suc f) zero (x ∷ s) h k = absurd (omega (arith, k))
redact_from-agree (suc f) (suc g) s h k =
    redact_round-agree (redact_from f) (redact_from g) s
      (λ t l. redact_from-agree f g t (omega arith) (omega arith))

-- The loop ends by itself: the redaction is what one turn writes, with the redaction of all that is
-- left behind it, and no fuel.
pub redact_uris_loop : (s : Text) → redact_uris s ≡ redact_round redact_uris s
unfolding redact_uris redact_from
redact_uris_loop s =
    redact_from-agree (length s) (suc (length s)) s (omega arith) (omega arith)
    ∙ redact_round-agree (redact_from (length s)) redact_uris s
        (λ t l. redact_from-agree (length s) (length t) t (omega arith) (omega arith))
