-- ===== src/Common/Trim.antt =====
-- Trimming texts whose ends are known.
use Prim.Native.Nat.{ℕ}
use mathlib.Core.Path.{◌≡◌, refl}
use mathlib.Core.Bool.{Bool, true, false, ◌&&◌, not}
use mathlib.Core.List.{[], ◌∷◌, ◌++◌}
use native.Mathlib.Omega.{arith}
use labview.Common.Text.{Text, is_empty, trim_left, trim_right}

-- Every byte of a text fails a test.
unfoldable pub free : (ℕ → Bool) → Text → Bool
free p [] = true
free p (x ∷ s) = not (p x) && free p s

pub trim_right-free : (p : ℕ → Bool) (s : Text) → free p s ≡ true → trim_right p s ≡ s
unfolding trim_right free
trim_right-free p [] h = refl
trim_right-free p (x ∷ s) h = ground (arith, trim_right-free p s)

pub trim_right-last :
    (p : ℕ → Bool) (s : Text) (x : ℕ) → p x ≡ false → trim_right p (s ++ x ∷ []) ≡ s ++ x ∷ []
unfolding trim_right
trim_right-last p [] x h = ground arith
trim_right-last p (y ∷ []) x h = ground arith
trim_right-last p (y ∷ z ∷ s) x h = rw (trim_right, trim_right-last p (z ∷ s) x h) refl

pub trim_left-free :
    (p : ℕ → Bool) (s rest : Text)
    → free p s ≡ true
    → is_empty s ≡ false
    → trim_left p (s ++ rest) ≡ s ++ rest
unfolding free trim_left
trim_left-free p [] rest h e = ground arith
trim_left-free p (c ∷ s) rest h e = ground arith

pub trim_right-one :
    (p : ℕ → Bool) (s : Text) (c : ℕ) → p c ≡ true → trim_right p (s ++ c ∷ []) ≡ trim_right p s
unfolding trim_right
trim_right-one p [] c h = ground arith
trim_right-one p (x ∷ s) c h = rw (trim_right, trim_right-one p s c h) refl
