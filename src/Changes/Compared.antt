-- ===== src/Changes/Compared.antt =====
-- When the configuration diff says nothing (changes.go, `configuration`).
use labview.Common.{
  ◌≡◌, ◌⊎◌, refl, sym, ◌∙◌, Bool, true, false, ◌&&◌, not, List, [], ◌∷◌, arith, no_items,
  Bool-cases, inl, inr,
}
use labview.Common.Text.{
  Text, text_eq, text_eq_iff, is_empty, contains, sort_texts, contains-sort_texts,
}
use labview.Common.Map.{Map, insert, keys, lookup-insert, lookup-of_not_contains, contains-insert}
use labview.Payload.{AppStack}
use labview.Changes.{strip, fingerprints_into, fingerprints, value_at, missing_ids, changed_ids}

contains-missing_ids :
    (k : Text) (before : Map Text) (ids : List Text)
    → contains k (missing_ids before ids) ≡ (contains k ids && is_empty (value_at before k))
unfolding contains missing_ids
contains-missing_ids k before [] = refl
contains-missing_ids k before (id ∷ ids) =
    unfold contains in
    elim (Bool-cases (text_eq id k)) [
      | inl same ↦
          rw ((text_eq_iff id k).0 same) (ground (arith, contains-missing_ids k before ids))
      | inr other ↦ ground (arith, contains-missing_ids k before ids)
    ]

contains-changed_ids :
    (k : Text) (before after : Map Text) (ids : List Text)
    → contains k (changed_ids before after ids) ≡ (
        contains k ids
        && (not (is_empty (value_at before k))
            && not (text_eq (value_at before k) (value_at after k))))
unfolding contains changed_ids
contains-changed_ids k before after [] = refl
contains-changed_ids k before after (id ∷ ids) =
    unfold contains in
    elim (Bool-cases (text_eq id k)) [
      | inl same ↦
          rw ((text_eq_iff id k).0 same) (ground (arith, contains-changed_ids k before after ids))
      | inr other ↦ ground (arith, contains-changed_ids k before after ids)
    ]

-- A key that is not there has the empty value.
value_at-of_not_contains :
    (m : Map Text) (k : Text) → contains k (keys m) ≡ false → value_at m k ≡ []
value_at-of_not_contains m k h = rw (lookup-of_not_contains k m h) refl

no_items-of_contains : (k : Text) (xs : List Text) → contains k xs ≡ true → no_items xs ≡ false
unfolding contains
no_items-of_contains k [] h = ground arith
no_items-of_contains k (x ∷ xs) h = refl

no_items_cases : (xs : List Text) → (no_items xs ≡ true) ⊎ ((k : Text) × (contains k xs ≡ true))
no_items_cases [] = inl refl
no_items_cases (x ∷ xs) = inr (x, unfold contains in ground (arith, text_eq_iff x x))

-- Every value of a map is a text that is not empty.
pub IsFull : Map Text → Type 0
IsFull m = (k : Text) → contains k (keys m) ≡ true → is_empty (value_at m k) ≡ false

insert-IsFull : (j v : Text) (m : Map Text) → is_empty v ≡ false → IsFull m → IsFull (insert j v m)
unfolding IsFull
insert-IsFull j v m h full k c =
    ground (arith, lookup-insert j k v m, contains-insert j k v m, full k)

fingerprints_into-IsFull :
    (digest : AppStack → Text) (stacks : List AppStack) (fps : Map Text)
    → ((s : AppStack) → is_empty (digest s) ≡ false)
    → IsFull fps
    → IsFull (fingerprints_into digest stacks fps)
unfolding fingerprints_into
fingerprints_into-IsFull digest [] fps h full = full
fingerprints_into-IsFull digest (s ∷ stacks) fps h full =
    fingerprints_into-IsFull digest stacks (insert s.id (digest (strip s)) fps) h
      (insert-IsFull s.id (digest (strip s)) fps (h (strip s)) full)

pub fingerprints-IsFull :
    (digest : AppStack → Text) (stacks : List AppStack)
    → ((s : AppStack) → is_empty (digest s) ≡ false)
    → IsFull (fingerprints digest stacks)
unfolding fingerprints IsFull contains
fingerprints-IsFull digest stacks h =
    fingerprints_into-IsFull digest stacks [] h (λ k c. ground arith)

-- Nothing is added, removed or changed between two maps.
unfoldable pub unmoved : Map Text → Map Text → Bool
unmoved before after =
    no_items (missing_ids before (sort_texts (keys after)))
    && no_items (missing_ids after (sort_texts (keys before)))
    && no_items (changed_ids before after (sort_texts (keys after)))

pub unmoved_same :
    (before after : Map Text) (k : Text)
    → unmoved before after ≡ true
    → value_at before k ≡ value_at after k
unfolding unmoved
unmoved_same before after k h = elim (Bool-cases (contains k (keys after))) [
  | inl c ↦ ground (
    arith,
    contains-sort_texts k (keys after),
    contains-missing_ids k before (sort_texts (keys after)),
    contains-changed_ids k before after (sort_texts (keys after)),
    no_items-of_contains k (missing_ids before (sort_texts (keys after))),
    no_items-of_contains k (changed_ids before after (sort_texts (keys after))),
    text_eq_iff (value_at before k) (value_at after k),
  )
  | inr c ↦
      let none_after = value_at-of_not_contains after k c in
      elim (Bool-cases (contains k (keys before))) [
        | inl b ↦ ground (
          arith,
          none_after,
          contains-sort_texts k (keys before),
          contains-missing_ids k after (sort_texts (keys before)),
          no_items-of_contains k (missing_ids after (sort_texts (keys before))),
        )
        | inr b ↦ value_at-of_not_contains before k b ∙ sym none_after
      ]
]

pub no_missing :
    (before after : Map Text)
    → IsFull after
    → ((k : Text) → value_at before k ≡ value_at after k)
    → no_items (missing_ids before (sort_texts (keys after))) ≡ true
unfolding IsFull
no_missing before after full same =
    elim (no_items_cases (missing_ids before (sort_texts (keys after)))) [
      | inl e ↦ e
      | inr (k, c) ↦ ground (
        arith,
        c,
        contains-missing_ids k before (sort_texts (keys after)),
        contains-sort_texts k (keys after),
        full k,
        same k,
      )
    ]

pub no_changed :
    (before after : Map Text)
    → ((k : Text) → value_at before k ≡ value_at after k)
    → no_items (changed_ids before after (sort_texts (keys after))) ≡ true
no_changed before after same =
    elim (no_items_cases (changed_ids before after (sort_texts (keys after)))) [
      | inl e ↦ e
      | inr (k, c) ↦ ground (
        arith,
        c,
        contains-changed_ids k before after (sort_texts (keys after)),
        text_eq_iff (value_at before k) (value_at after k),
        same k,
      )
    ]
