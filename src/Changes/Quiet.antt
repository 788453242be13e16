-- ===== src/Changes/Quiet.antt =====
-- The configuration diff is silent exactly if no digest moved (changes.go, `configuration`).
use labview.Common.{
  ◌≡◌, ◌↔◌, refl, sym, ◌∙◌, true, false, ◌&&◌, List, [], ◌∷◌, ◌++◌, arith, no_items, leb, length,
  Bool-cases, inl, inr,
}
use labview.Common.Text.{Text, is_empty, sort_texts}
use labview.Common.Map.{keys}
use labview.Payload.{AppStack}
use labview.Changes.{
  ConfigLine, fingerprints, value_at, missing_ids, changed_ids, capped, Scanned, configuration,
  max_stack_lines, added_lines, removed_lines, changed_lines,
}
use labview.Changes.Compared.{fingerprints-IsFull, unmoved, unmoved_same, no_missing, no_changed}

no_items-append {ℓ} :
    {A : Type ℓ} (xs ys : List A) → no_items (xs ++ ys) ≡ (no_items xs && no_items ys)
no_items-append [] ys = refl
no_items-append (x ∷ xs) ys = refl

no_items-capped :
    (lines : List ConfigLine) → no_items (capped lines max_stack_lines) ≡ no_items lines
unfolding capped
no_items-capped [] = refl
no_items-capped (l ∷ lines) = elim (Bool-cases (leb (length (l ∷ lines)) max_stack_lines)) [
  | inl e ↦ rw (capped, e) refl
  | inr e ↦ rw (capped, e) refl
]

no_items-added :
    (next : List AppStack) (ids : List Text) → no_items (added_lines next ids) ≡ no_items ids
no_items-added next [] = refl
no_items-added next (id ∷ ids) = refl

no_items-removed :
    (prev : List AppStack) (ids : List Text) → no_items (removed_lines prev ids) ≡ no_items ids
no_items-removed prev [] = refl
no_items-removed prev (id ∷ ids) = refl

no_items-changed :
    (prev next : List AppStack) (ids : List Text)
    → no_items (changed_lines prev next ids) ≡ no_items ids
no_items-changed prev next [] = refl
no_items-changed prev next (id ∷ ids) = refl

-- Whichever lists of identifiers moved, a line says so.
stated :
    (prev next : List AppStack) (new_ids gone edited : List Text)
    → no_items (
        capped
          (added_lines next new_ids ++ (removed_lines prev gone ++ changed_lines prev next edited))
          max_stack_lines)
      ≡ (no_items new_ids && no_items gone && no_items edited)
stated prev next new_ids gone edited =
    rw
      (
        no_items-capped (
            added_lines next new_ids
            ++ (removed_lines prev gone ++ changed_lines prev next edited)),
        no_items-append (added_lines next new_ids)
            (removed_lines prev gone ++ changed_lines prev next edited),
        no_items-append (removed_lines prev gone) (changed_lines prev next edited),
        no_items-added next new_ids,
        no_items-removed prev gone,
        no_items-changed prev next edited,
      )
      (ground arith)

no_items-configuration :
    (digest : AppStack → Text) (prev next : Scanned)
    → no_items (configuration digest prev next)
      ≡ unmoved (fingerprints digest prev.stacks) (fingerprints digest next.stacks)
unfolding configuration unmoved
no_items-configuration digest prev next =
    let before = fingerprints digest prev.stacks in
    let after = fingerprints digest next.stacks in
    let new_ids = missing_ids before (sort_texts (keys after)) in
    let gone = missing_ids after (sort_texts (keys before)) in
    let edited = changed_ids before after (sort_texts (keys after)) in
    elim (Bool-cases (no_items new_ids && no_items gone && no_items edited)) [
      | inl e ↦ rw (configuration, e) refl
      | inr e ↦
          rw (configuration, e, no_items-append)
            (rw (stated prev.stacks next.stacks new_ids gone edited, e) (ground arith))
    ]

-- With a digest that is never empty, the configuration diff says nothing exactly if every identifier has
-- the same digest before and after, or is of no stack in either.
pub configuration_quiet_iff :
    (digest : AppStack → Text) (prev next : Scanned)
    → ((s : AppStack) → is_empty (digest s) ≡ false)
    → (no_items (configuration digest prev next) ≡ true) ↔ (
        (id : Text)
        → value_at (fingerprints digest prev.stacks) id
          ≡ value_at (fingerprints digest next.stacks) id)
unfolding unmoved
configuration_quiet_iff digest prev next h =
    let before = fingerprints digest prev.stacks in
    let after = fingerprints digest next.stacks in
    (
      (λ q id. unmoved_same before after id (sym (no_items-configuration digest prev next) ∙ q)),
      (λ same.
          let new_ids = no_missing before after (fingerprints-IsFull digest next.stacks h) same in
          let gone =
            no_missing after before (fingerprints-IsFull digest prev.stacks h)
              (λ k. sym (same k)) in
          let edited = no_changed before after same in
          no_items-configuration digest prev next ∙ ground (arith, new_ids, gone, edited)),
    )
