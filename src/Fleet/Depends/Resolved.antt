-- ===== src/Fleet/Depends/Resolved.antt =====
-- What a resolved reference names, and the pairs of the dependencies (depends.go).
use labview.Common.{◌≡◌, ◌⊎◌, refl, true, false, List, [], ◌∷◌, some, arith, Option-cases, inl, inr}
use labview.Common.Text.{Text, text_eq, text_eq_iff, text_eq_refl, contains, append_once}
use labview.Payload.{DeclaredServiceDependency}
use labview.Fleet.{Visit}
use labview.Fleet.Depends.{
  Dependency, Resolution, resolved_to, not_resolved, Reason, index_keys, in_stack, cut_ref,
  candidates, choose, resolve_ref, pair_of, add_resolved,
}

pub in_stack-contains :
    (vs : List Visit) (stack name key : Text)
    → in_stack vs stack name ≡ some key
    → contains key (index_keys vs) ≡ true
unfolding in_stack index_keys contains
in_stack-contains [] stack name key h = absurd (ground arith)
in_stack-contains (v ∷ vs) stack name key h = elim (Option-cases (in_stack vs stack name)) [
  | inl e ↦ ground (arith, text_eq_refl v.key)
  | inr (k, e) ↦ ground (arith, in_stack-contains vs stack name k e)
]

pub candidates_sound :
    (source ref : Text) (keys : List Text) (key : Text)
    → contains key (candidates source ref keys) ≡ true
    → (contains key keys ≡ true) × (text_eq key source ≡ false)
unfolding candidates contains
candidates_sound source ref [] key h = absurd (ground arith)
candidates_sound source ref (k ∷ keys) key h =
    ground (arith, candidates_sound source ref keys key, text_eq_iff k key)

pub choose_sound :
    (keys : List Text) (key : Text) → choose keys ≡ resolved_to key → contains key keys ≡ true
unfolding choose contains
choose_sound [] key h = absurd (ground arith)
choose_sound (k ∷ []) key h = ground (arith, text_eq_iff k key)
choose_sound (k ∷ j ∷ keys) key h = absurd (ground arith)

pub Resolution-cases :
    (r : Resolution)
    → ((reason : Reason) × (considered : List Text) × (r ≡ not_resolved reason considered))
      ⊎ ((key : Text) × (r ≡ resolved_to key))
Resolution-cases (not_resolved reason considered) = inl (reason, considered, refl)
Resolution-cases (resolved_to key) = inr (key, refl)

-- A reference resolves to another scanned service than the one that holds it.
pub resolve_ref_sound :
    (vs : List Visit) (source stack ref key : Text)
    → resolve_ref vs source stack ref ≡ resolved_to key
    → (contains key (index_keys vs) ≡ true) × (text_eq key source ≡ false)
unfolding resolve_ref
resolve_ref_sound vs source stack ref key h = elim (Option-cases (cut_ref ref)) [
  | inr ((other, name), e) ↦ (ground arith, ground arith)
  | inl e ↦ elim (Option-cases (in_stack vs stack ref)) [
    | inr (k, f) ↦ (ground (arith, in_stack-contains vs stack ref k f), ground arith)
    | inl f ↦
        candidates_sound source ref (index_keys vs) key
          (choose_sound (candidates source ref (index_keys vs)) key (ground arith))
  ]
]

abbrev pub pairs : List Dependency → List Text
pairs [] = []
pairs (d ∷ ds) = pair_of d ∷ pairs ds

pub pairs-add_resolved :
    (d : Dependency) (es : List Dependency)
    → pairs (add_resolved d es) ≡ append_once (pairs es) (pair_of d)
unfolding add_resolved append_once contains
pairs-add_resolved d [] = refl
pairs-add_resolved d (e ∷ es) = ground (arith, pairs-add_resolved d es)

-- The references that a declaration writes.
abbrev pub refs_of : List DeclaredServiceDependency → List Text
refs_of [] = []
refs_of (r ∷ refs) = r.ref ∷ refs_of refs

pub contains-head : (x : Text) (xs : List Text) → contains x (x ∷ xs) ≡ true
unfolding contains
contains-head x xs = ground (arith, text_eq_refl x)

pub contains-tail :
    (x y : Text) (xs : List Text) → contains x xs ≡ true → contains x (y ∷ xs) ≡ true
unfolding contains
contains-tail x y xs h = ground (arith, h)

-- One list of names stands in another.
abbrev pub Within : List Text → List Text → Type 0
Within names more = (name : Text) → contains name names ≡ true → contains name more ≡ true
