-- ===== src/Common/Text.antt =====
-- Go's `string` as its bytes, and the functions of package `strings` that the program calls.
use Prim.Native.Char.{code}
use Prim.Native.String.{String}
use Prim.Native.Nat.{ℕ, ◌+◌}
use mathlib.Core.Path.{◌≡◌, refl}
use mathlib.Core.Logic.{◌↔◌, ◌≢◌, inl, inr}
use mathlib.Core.Bool.{Bool, true, false, ◌&&◌, ◌||◌}
use mathlib.Core.Option.{Option, none, some}
use mathlib.Core.List.{List, [], ◌∷◌, ◌++◌, map}
use native.Mathlib.Omega.{arith}
use labview.Common.Tests.{leb, ltb, ◌==◌, if◌then◌else◌, Option-cases}

abbrev pub Text : Type 0
Text = List ℕ

-- The bytes of an ASCII literal.
abbrev pub codes : String → Text
codes String.[] = []
codes (String.◌∷◌ c s) = code c ∷ codes s

unfoldable pub text_eq : Text → Text → Bool
text_eq [] [] = true
text_eq (x ∷ xs) (y ∷ ys) = (x == y) && text_eq xs ys
text_eq _ _ = false

pub text_eq_iff : (a b : Text) → (text_eq a b ≡ true) ↔ (a ≡ b)
unfolding text_eq
text_eq_iff [] [] = ground arith
text_eq_iff [] (y ∷ ys) = ground arith
text_eq_iff (x ∷ xs) [] = ground arith
text_eq_iff (x ∷ xs) (y ∷ ys) = ground (arith, text_eq_iff xs ys)

pub text_eq_refl : (a : Text) → text_eq a a ≡ true
text_eq_refl a = (text_eq_iff a a).1 refl

pub text_eq-false : (a b : Text) → a ≢ b → text_eq a b ≡ false
text_eq-false a b h = ground (arith, text_eq_iff a b)

-- Go's `<` on strings.
unfoldable pub text_lt : Text → Text → Bool
text_lt [] [] = false
text_lt [] (y ∷ ys) = true
text_lt (x ∷ xs) [] = false
text_lt (x ∷ xs) (y ∷ ys) = ltb x y || (x == y) && text_lt xs ys

-- `sort.Strings`, as an insertion.
unfoldable pub insert_text : Text → List Text → List Text
insert_text x [] = x ∷ []
insert_text x (y ∷ ys) = if text_lt y x then y ∷ insert_text x ys else x ∷ y ∷ ys

unfoldable pub sort_texts : List Text → List Text
sort_texts [] = []
sort_texts (x ∷ xs) = insert_text x (sort_texts xs)

-- `len(s) == 0` and `s == ""`.
abbrev pub is_empty : Text → Bool
is_empty [] = true
is_empty (x ∷ xs) = false

-- The `contains` helper of the packages: membership of a text in a list of texts.
unfoldable pub contains : Text → List Text → Bool
contains k [] = false
contains k (x ∷ xs) = text_eq x k || contains k xs

pub contains-insert_text :
    (k x : Text) (ys : List Text) → contains k (insert_text x ys) ≡ (text_eq x k || contains k ys)
unfolding contains insert_text
contains-insert_text k x [] = refl
contains-insert_text k x (y ∷ ys) = ground (arith, contains-insert_text k x ys)

pub contains-sort_texts : (k : Text) (xs : List Text) → contains k (sort_texts xs) ≡ contains k xs
unfolding contains sort_texts
contains-sort_texts k [] = refl
contains-sort_texts k (x ∷ xs) =
    ground (arith, contains-sort_texts k xs, contains-insert_text k x (sort_texts xs))

-- The `appendOnce` helper of the packages.
unfoldable pub append_once : List Text → Text → List Text
unfolding contains
append_once xs k = if contains k xs then xs else xs ++ k ∷ []

pub contains-append :
    (k : Text) (xs ys : List Text) → contains k (xs ++ ys) ≡ (contains k xs || contains k ys)
unfolding contains
contains-append k [] ys = refl
contains-append k (x ∷ xs) ys = ground (arith, contains-append k xs ys)

pub contains-append_once :
    (k j : Text) (xs : List Text) → contains k (append_once xs j) ≡ (contains k xs || text_eq j k)
unfolding append_once
contains-append_once k j xs = ground (arith, contains-append k xs (j ∷ []), text_eq_iff j k)

-- No text stands twice.
abbrev pub Distinct : List Text → Type 0
Distinct [] = Unit
Distinct (x ∷ xs) = (contains x xs ≡ false) × Distinct xs

pub Distinct-concat :
    (xs : List Text) (k : Text) → contains k xs ≡ false → Distinct xs → Distinct (xs ++ k ∷ [])
unfolding contains
Distinct-concat [] k h d = (refl, tt)
Distinct-concat (x ∷ xs) k h d = (
  ground (arith, contains-append x xs (k ∷ []), text_eq_iff x k, text_eq_iff k x),
  Distinct-concat xs k (ground arith) d.1,
)

pub Distinct-append_once : (xs : List Text) (k : Text) → Distinct xs → Distinct (append_once xs k)
unfolding append_once
Distinct-append_once xs k d = ground (arith, Distinct-concat xs k)

-- `strings.ToLower` on ASCII text.
abbrev pub lower_byte : ℕ → ℕ
lower_byte c = if leb b'A' c && leb c b'Z' then c + 32 else c

unfoldable pub to_lower : Text → Text
to_lower = map lower_byte

-- `strings.HasPrefix`.
unfoldable pub has_prefix : Text → Text → Bool
has_prefix s [] = true
has_prefix [] (p ∷ ps) = false
has_prefix (x ∷ s) (p ∷ ps) = (x == p) && has_prefix s ps

-- Whether a byte stands in a text, `strings.ContainsRune` for an ASCII rune.
unfoldable pub has_byte : ℕ → Text → Bool
has_byte c [] = false
has_byte c (x ∷ xs) = (x == c) || has_byte c xs

-- Whether every byte is below 128.
unfoldable pub ascii : Text → Bool
ascii [] = true
ascii (x ∷ xs) = ltb x 128 && ascii xs

pub has_byte-append :
    (c : ℕ) (xs ys : Text) → has_byte c (xs ++ ys) ≡ (has_byte c xs || has_byte c ys)
unfolding has_byte
has_byte-append c [] ys = refl
has_byte-append c (x ∷ xs) ys = ground (arith, has_byte-append c xs ys)

-- `strings.Index` with a one-byte separator, then the two halves: `strings.Cut`.
unfoldable pub cut_byte : ℕ → Text → Option (Text × Text)
cut_byte c [] = none
cut_byte c (x ∷ xs) =
    if x == c
    then some ([], xs)
    else elim (cut_byte c xs) [ none ↦ none | some (a, b) ↦ some (x ∷ a, b) ]

-- The halves are the text round its first separator.
pub cut_byte_sound :
    (c : ℕ) (s a b : Text) → cut_byte c s ≡ some (a, b) → (s ≡ a ++ c ∷ b) × (has_byte c a ≡ false)
unfolding cut_byte has_byte
cut_byte_sound c [] a b h = ground arith
cut_byte_sound c (x ∷ xs) a b h = elim (Option-cases (cut_byte c xs)) [
  | inl e ↦ ground arith
  | inr ((p, q), e) ↦ ground (arith, cut_byte_sound c xs p q e)
]

pub cut_byte_complete :
    (c : ℕ) (a b : Text) → has_byte c a ≡ false → cut_byte c (a ++ c ∷ b) ≡ some (a, b)
unfolding cut_byte has_byte
cut_byte_complete c [] b h = ground arith
cut_byte_complete c (x ∷ a) b h = ground (arith, cut_byte_complete c a b)

-- The text before the first byte that passes a test, and the whole where none does.
unfoldable pub before : (ℕ → Bool) → Text → Text
before p [] = []
before p (x ∷ xs) = if p x then [] else x ∷ before p xs

-- The white space of `strings.TrimSpace` on ASCII text.
abbrev pub is_space : ℕ → Bool
is_space c = (c == b' ') || (leb 9 c && leb c 13)

unfoldable pub trim_left : (ℕ → Bool) → Text → Text
trim_left p [] = []
trim_left p (x ∷ xs) = if p x then trim_left p xs else x ∷ xs

unfoldable pub trim_right : (ℕ → Bool) → Text → Text
trim_right p [] = []
trim_right p (x ∷ xs) = let rest = trim_right p xs in if is_empty rest && p x then [] else x ∷ rest

unfoldable pub trim_space : Text → Text
trim_space s = trim_right is_space (trim_left is_space s)

-- `strings.Split` with a one-byte separator.
unfoldable pub split_byte : ℕ → Text → List Text
split_byte c [] = [] ∷ []
split_byte c (x ∷ xs) = elim (split_byte c xs) [
  | [] ↦ (x ∷ []) ∷ []
  | part ∷ parts ↦ if x == c then [] ∷ part ∷ parts else (x ∷ part) ∷ parts
]
