-- ===== src/Common/Map.antt =====
-- Go's maps with string keys, as association lists in the order in which the keys were first set.
-- The program sorts or orders by other means wherever an order matters, and `len` is the length.
use Prim.Native.Nat.{suc, ◌≤◌}
use mathlib.Core.Path.{◌≡◌, refl, ap}
use mathlib.Core.Bool.{false, ◌||◌}
use mathlib.Core.Option.{Option, none, some}
use mathlib.Core.List.{List, [], ◌∷◌, ◌++◌}
use native.Mathlib.Omega.{arith}
use labview.Common.Tests.{if◌then◌else◌}
use labview.Common.Lists.{length}
use labview.Common.Text.{Text, text_eq, text_eq_iff, text_eq_refl, contains, Distinct}

abbrev pub Map {ℓ} : Type ℓ → Type ℓ
Map V = List (Text × V)

-- Every occurrence goes; a key stands once wherever the program deletes.
unfoldable pub without : Text → List Text → List Text
without k [] = []
without k (x ∷ xs) = if text_eq x k then without k xs else x ∷ without k xs

module _ {ℓ} {V : Type ℓ} where
  unfoldable pub lookup : Text → Map V → Option V
  lookup k [] = none
  lookup k ((j, v) ∷ m) = if text_eq j k then some v else lookup k m

  -- `m[k] = v`
  unfoldable pub insert : Text → V → Map V → Map V
  insert k v [] = (k, v) ∷ []
  insert k v ((j, w) ∷ m) = if text_eq j k then (j, v) ∷ m else (j, w) ∷ insert k v m

  -- `delete(m, k)`
  unfoldable pub remove : Text → Map V → Map V
  remove k [] = []
  remove k ((j, w) ∷ m) = if text_eq j k then remove k m else (j, w) ∷ remove k m

  abbrev pub keys : Map V → List Text
  keys [] = []
  keys ((j, w) ∷ m) = j ∷ keys m

  pub lookup-insert :
      (k j : Text) (v : V) (m : Map V)
      → lookup j (insert k v m) ≡ (if text_eq k j then some v else lookup j m)
  unfolding lookup insert
  lookup-insert k j v [] = refl
  lookup-insert k j v ((i, w) ∷ m) =
      ground (arith, text_eq_iff k j, text_eq_iff i k, text_eq_iff i j, lookup-insert k j v m)

  pub lookup-remove :
      (k j : Text) (m : Map V) → lookup j (remove k m) ≡ (if text_eq k j then none else lookup j m)
  unfolding lookup remove
  lookup-remove k j [] = ground arith
  lookup-remove k j ((i, w) ∷ m) =
      ground (arith, text_eq_iff k j, text_eq_iff i k, text_eq_iff i j, lookup-remove k j m)

  pub lookup-insert_self : (k : Text) (v : V) (m : Map V) → lookup k (insert k v m) ≡ some v
  lookup-insert_self k v m = simp (lookup-insert, text_eq_refl)

  pub keys-insert_new :
      (k : Text) (v : V) (m : Map V) → lookup k m ≡ none → keys (insert k v m) ≡ keys m ++ k ∷ []
  unfolding lookup insert
  keys-insert_new k v [] h = refl
  keys-insert_new k v ((i, w) ∷ m) h = ground (arith, keys-insert_new k v m)

  pub keys-insert_old :
      (k : Text) (v : V) (w : V) (m : Map V) → lookup k m ≡ some w → keys (insert k v m) ≡ keys m
  unfolding lookup insert
  keys-insert_old k v w [] h = ground arith
  keys-insert_old k v w ((i, u) ∷ m) h = ground (arith, keys-insert_old k v w m)

  pub keys-remove : (k : Text) (m : Map V) → keys (remove k m) ≡ without k (keys m)
  unfolding remove without
  keys-remove k [] = refl
  keys-remove k ((i, w) ∷ m) = ground (arith, keys-remove k m)

  pub length-keys : (m : Map V) → length (keys m) ≡ length m
  length-keys [] = refl
  length-keys ((i, w) ∷ m) = ap suc (length-keys m)

  pub lookup-none_iff : (k : Text) (m : Map V) → lookup k m ≡ none → contains k (keys m) ≡ false
  unfolding lookup contains
  lookup-none_iff k [] h = refl
  lookup-none_iff k ((i, w) ∷ m) h = ground (arith, lookup-none_iff k m)

  pub lookup-of_not_contains :
      (k : Text) (m : Map V) → contains k (keys m) ≡ false → lookup k m ≡ none
  unfolding lookup contains
  lookup-of_not_contains k [] h = refl
  lookup-of_not_contains k ((i, w) ∷ m) h = ground (arith, lookup-of_not_contains k m)

-- The loop that drops the first occurrence of a key, and stops.
unfoldable pub without_first : Text → List Text → List Text
without_first k [] = []
without_first k (x ∷ xs) = if text_eq x k then xs else x ∷ without_first k xs

pub without-of_not_contains :
    (k : Text) (xs : List Text) → contains k xs ≡ false → without k xs ≡ xs
unfolding without contains
without-of_not_contains k [] h = refl
without-of_not_contains k (x ∷ xs) h = ground (arith, without-of_not_contains k xs)

pub without_first-of_Distinct :
    (k : Text) (xs : List Text) → Distinct xs → without_first k xs ≡ without k xs
unfolding without without_first
without_first-of_Distinct k [] h = refl
without_first-of_Distinct k (x ∷ xs) h =
    ground
      (arith, without_first-of_Distinct k xs h.1, without-of_not_contains k xs, text_eq_iff x k)

pub contains-without :
    (k j : Text) (xs : List Text)
    → contains j (without k xs) ≡ (if text_eq k j then false else contains j xs)
unfolding without contains
contains-without k j [] = ground arith
contains-without k j (x ∷ xs) =
    ground (arith, text_eq_iff x k, text_eq_iff x j, text_eq_iff k j, contains-without k j xs)

pub Distinct-without : (k : Text) (xs : List Text) → Distinct xs → Distinct (without k xs)
unfolding without
Distinct-without k [] h = tt
Distinct-without k (x ∷ xs) h =
    ground (arith, Distinct-without k xs h.1, contains-without k x xs, text_eq_iff k x)

pub length-without : (k : Text) (xs : List Text) → length (without k xs) ≤ length xs
unfolding without
length-without k [] = omega arith
length-without k (x ∷ xs) = ground (arith, length-without k xs)

pub without-head : (k : Text) (xs : List Text) → contains k xs ≡ false → without k (k ∷ xs) ≡ xs
unfolding without
without-head k xs h = ground (arith, without-of_not_contains k xs, text_eq_refl k)

module _ {ℓ} {V : Type ℓ} where
  pub contains-insert :
      (k j : Text) (v : V) (m : Map V)
      → contains j (keys (insert k v m)) ≡ (contains j (keys m) || text_eq k j)
  unfolding insert contains
  contains-insert k j v [] = ground arith
  contains-insert k j v ((i, w) ∷ m) =
      ground (arith, contains-insert k j v m, text_eq_iff i k, text_eq_iff i j, text_eq_iff k j)

  pub Distinct-insert :
      (k : Text) (v : V) (m : Map V) → Distinct (keys m) → Distinct (keys (insert k v m))
  unfolding insert contains
  Distinct-insert k v [] d = (refl, tt)
  Distinct-insert k v ((i, w) ∷ m) d =
      ground (
        arith,
        Distinct-insert k v m d.1,
        contains-insert k i v m,
        text_eq_iff i k,
        text_eq_iff k i,
      )
