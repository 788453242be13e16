-- ===== src/Changes/Named.antt =====
-- Which names are gained and lost, and when a note is quiet (changes.go).
use labview.Common.{
  ◌≡◌, refl, ◌∙◌, ◌&&◌, not, List, [], ◌∷◌, arith, no_items, Bool-cases, ℕ, Option, none, some, inl,
  inr,
}
use labview.Common.Text.{Text, text_eq, text_eq_iff, contains}
use labview.Changes.{ConfigLine}
use labview.Changes.Moved.{Line, dedupe, without_names, names_moved, Note, quiet, lines}

contains-dedupe : (k : Text) (xs : List Text) → contains k (dedupe xs) ≡ contains k xs
unfolding contains dedupe
contains-dedupe k [] = refl
contains-dedupe k (x ∷ []) = refl
contains-dedupe k (x ∷ y ∷ xs) = ground (arith, contains-dedupe k (y ∷ xs), text_eq_iff y x)

contains-without_names :
    (k : Text) (others xs : List Text)
    → contains k (without_names others xs) ≡ (contains k xs && not (contains k others))
unfolding contains without_names
contains-without_names k others [] = refl
contains-without_names k others (x ∷ xs) =
    unfold contains in
    elim (Bool-cases (text_eq x k)) [
      | inl same ↦
          let e = (text_eq_iff x k).0 same in ground (arith, contains-without_names k others xs, e)
      | inr other ↦ ground (arith, contains-without_names k others xs)
    ]

-- A name is gained exactly if it is there now and was not before, and lost exactly if it was there
-- before and is not now.
pub contains-names_moved :
    (was now : List Text) (k : Text)
    → (contains k (names_moved was now).0 ≡ (contains k now && not (contains k was)))
      × (contains k (names_moved was now).1 ≡ (contains k was && not (contains k now)))
unfolding names_moved
contains-names_moved was now k = (
  contains-dedupe k (without_names was now) ∙ contains-without_names k was now,
  contains-dedupe k (without_names now was) ∙ contains-without_names k now was,
)

silent_note :
    (first : Option (ℕ × ℕ)) (config : List ConfigLine) (integrated : List Line)
    → no_items (lines (record { first = first; config = config; integrated = integrated }))
      ≡ quiet (record { first = first; config = config; integrated = integrated })
unfolding lines quiet
silent_note (some b) config integrated = refl
silent_note none [] [] = refl
silent_note none [] (l ∷ ls) = refl
silent_note none (c ∷ cs) integrated = refl

-- A note has no line exactly if it is quiet.
pub no_items-lines : (n : Note) → no_items (lines n) ≡ quiet n
no_items-lines n = silent_note n.first n.config n.integrated
