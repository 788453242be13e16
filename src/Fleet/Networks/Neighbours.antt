-- ===== src/Fleet/Networks/Neighbours.antt =====
-- When a service has a neighbour (networks.go, `HasNeighbour` and `Neighbours`).
use labview.Common.{
  ◌<◌, ◌≡◌, ◌≢◌, ◌↔◌, refl, sym, ◌∙◌, Bool, true, ◌&&◌, not, List, [], ◌∷◌, arith, Bool-cases, inl,
  inr, ltb, length,
}
use labview.Common.Text.{
  Text, text_eq, text_eq_iff, text_eq_refl, is_empty, contains, Distinct, Distinct-append_once,
}
use labview.Common.Map.{lookup}
use labview.Payload.{AppStack}
use labview.Fleet.{Visit, each}
use labview.Fleet.Networks.{
  Networks, empty, of, members_of, join, join_all, join_each, new_networks, declared_external,
  any_crowded, has_neighbour,
}
use labview.Fleet.Networks.Members.{attached, members_of-join, new_networks_lem}

Distinct-join :
    (ext : Text → Bool) (v : Visit) (name : Text) (idx : Networks)
    → ((n : Text) → Distinct (members_of idx n))
    → (n : Text) → Distinct (members_of (join ext v name idx) n)
Distinct-join ext v name idx d n =
    rw (members_of-join ext v name idx n)
      (elim (Bool-cases (not (is_empty name) && text_eq name n)) [
        | inl e ↦ rw e (Distinct-append_once (members_of idx n) v.key (d n))
        | inr e ↦ rw e (d n)
      ])

Distinct-join_all :
    (ext : Text → Bool) (v : Visit) (names : List Text) (idx : Networks)
    → ((n : Text) → Distinct (members_of idx n))
    → (n : Text) → Distinct (members_of (join_all ext v names idx) n)
unfolding join_all
Distinct-join_all ext v [] idx d = d
Distinct-join_all ext v (name ∷ names) idx d =
    Distinct-join_all ext v names (join ext v name idx) (Distinct-join ext v name idx d)

Distinct-join_each :
    (ext : Text → Bool) (vs : List Visit) (idx : Networks)
    → ((n : Text) → Distinct (members_of idx n))
    → (n : Text) → Distinct (members_of (join_each ext vs idx) n)
unfolding join_each
Distinct-join_each ext [] idx d = d
Distinct-join_each ext (v ∷ vs) idx d =
    Distinct-join_each ext vs (join_all ext v v.service.networks idx)
      (Distinct-join_all ext v v.service.networks idx d)

-- A network counts each member once.
pub Distinct-members_of :
    (stacks : List AppStack) (name : Text) → Distinct (members_of (new_networks stacks) name)
unfolding new_networks members_of lookup
Distinct-members_of stacks =
    Distinct-join_each (declared_external stacks) (each stacks) empty (λ n. tt)

-- Two distinct members, of which one may be the key, hold another than the key.
other_of :
    (key : Text) (xs : List Text)
    → Distinct xs
    → 1 < length xs
    → (other : Text) × (other ≢ key) × (contains other xs ≡ true)
unfolding contains
other_of key [] d h = absurd (omega (arith, h))
other_of key (x ∷ []) d h = absurd (omega (arith, h))
other_of key (x ∷ y ∷ xs) d h = elim (Bool-cases (text_eq x key)) [
  | inl e ↦ (
    y,
    (λ k. ground (arith, d, text_eq_iff y x, text_eq_iff x key)),
    rw (text_eq_refl y) (ground arith),
  )
  | inr e ↦ (x, (λ k. ground (arith, text_eq_iff x key)), rw (text_eq_refl x) refl)
]

crowded :
    (key other : Text) (xs : List Text)
    → other ≢ key
    → contains key xs ≡ true
    → contains other xs ≡ true
    → 1 < length xs
unfolding contains
crowded key other [] o h k = absurd (ground arith)
crowded key other (x ∷ []) o h k = ground (arith, text_eq_iff x key, text_eq_iff x other)
crowded key other (x ∷ y ∷ xs) o h k = omega arith

any_crowded_sound :
    (idx : Networks) (names : List Text)
    → any_crowded idx names ≡ true
    → (name : Text) × (contains name names ≡ true) × (1 < length (members_of idx name))
unfolding any_crowded contains
any_crowded_sound idx [] h = absurd (ground arith)
any_crowded_sound idx (name ∷ names) h = elim (Bool-cases (ltb 1 (length (members_of idx name)))) [
  | inl e ↦ (name, rw (text_eq_refl name) refl, ground arith)
  | inr e ↦ let (n, here, c) = any_crowded_sound idx names (rw e at h) in (n, ground arith, c)
]

any_crowded_complete :
    (idx : Networks) (names : List Text) (name : Text)
    → contains name names ≡ true
    → 1 < length (members_of idx name)
    → any_crowded idx names ≡ true
unfolding any_crowded contains
any_crowded_complete idx [] name h c = absurd (ground arith)
any_crowded_complete idx (n ∷ names) name h c = elim (Bool-cases (text_eq n name)) [
  | inl e ↦ ground (arith, text_eq_iff n name)
  | inr e ↦ ground (arith, any_crowded_complete idx names name)
]

-- A key has a neighbour exactly if a service with another key lists a network that one with this
-- key lists.
pub has_neighbour_iff :
    (stacks : List AppStack) (key : Text)
    → (has_neighbour (new_networks stacks) key ≡ true) ↔ (
        (name : Text) × (other : Text) × (other ≢ key)
        × (attached (each stacks) key name ≡ true)
        × (attached (each stacks) other name ≡ true))
unfolding has_neighbour
has_neighbour_iff stacks key = (
  (λ h.
      let (name, here, c) =
        any_crowded_sound (new_networks stacks) (of (new_networks stacks) key) h in
      let (other, different, there) =
        other_of key (members_of (new_networks stacks) name) (Distinct-members_of stacks name) c in
      (
        name,
        other,
        different,
        sym (new_networks_lem stacks key name).0 ∙ here,
        sym (new_networks_lem stacks other name).1 ∙ there,
      )),
  (λ (name, other, different, here, there).
      any_crowded_complete (new_networks stacks) (of (new_networks stacks) key) name
        ((new_networks_lem stacks key name).0 ∙ here)
        (crowded key other (members_of (new_networks stacks) name) different
          ((new_networks_lem stacks key name).1 ∙ here)
          ((new_networks_lem stacks other name).1 ∙ there))),
)
