-- ===== src/Fleet/Networks/Members.antt =====
-- The index is one relation, read both ways (networks.go).
use labview.Common.{
  ◌≡◌, ◌≢◌, ◌↔◌, refl, ◌∙◌, sym, Bool, true, false, ◌&&◌, ◌||◌, not, List, [], ◌∷◌, arith,
  Bool-cases, Option-cases, inl, inr, if◌then◌else◌,
}
use labview.Common.Text.{
  Text, text_eq, text_eq_iff, text_eq_refl, is_empty, contains, append_once, contains-append_once,
}
use labview.Common.Map.{lookup, lookup-insert}
use labview.Payload.{AppStack}
use labview.Fleet.{Visit, each}
use labview.Fleet.Networks.{
  Networks, empty, of, members_of, join, join_all, join_each, new_networks, common, no_names,
  shared, shares_any, declared_external,
}

of-join :
    (ext : Text → Bool) (v : Visit) (name : Text) (idx : Networks) (key : Text)
    → of (join ext v name idx) key ≡ (
        if not (is_empty name) && text_eq v.key key
        then append_once (of idx key) name
        else of idx key)
unfolding of join
of-join ext v name idx key = elim (Bool-cases (is_empty name)) [
  | inl e ↦ rw e refl
  | inr e ↦
      rw (e, lookup-insert)
        (elim (Bool-cases (text_eq v.key key)) [
          | inl k ↦ rw (k, (text_eq_iff v.key key).0 k) refl
          | inr k ↦ rw k refl
        ])
]

pub members_of-join :
    (ext : Text → Bool) (v : Visit) (name : Text) (idx : Networks) (other : Text)
    → members_of (join ext v name idx) other ≡ (
        if not (is_empty name) && text_eq name other
        then append_once (members_of idx other) v.key
        else members_of idx other)
unfolding members_of join
members_of-join ext v name idx other = elim (Bool-cases (is_empty name)) [
  | inl e ↦ rw e refl
  | inr e ↦
      rw (e, lookup-insert)
        (elim (Bool-cases (text_eq name other)) [
          | inl k ↦
              rw (k, ← (text_eq_iff name other).0 k)
                (elim (Option-cases (lookup name idx.by_name)) [
                  | inl o ↦ rw o refl
                  | inr (n, o) ↦ rw o refl
                ])
          | inr k ↦ rw k refl
        ])
]

-- Whether a list of visits puts a key on a network.
unfoldable pub attached : List Visit → Text → Text → Bool
attached [] key name = false
attached (v ∷ vs) key name =
    (text_eq v.key key && not (is_empty name) && contains name v.service.networks)
    || attached vs key name

-- The index holds what a relation says, both ways.
record IsIndex (idx : Networks) (R : Text → Text → Bool) : Type 0 where
  by_key : (key name : Text) → contains name (of idx key) ≡ R key name
  by_network : (key name : Text) → contains key (members_of idx name) ≡ R key name

join-IsIndex :
    (ext : Text → Bool) (v : Visit) (name : Text) (idx : Networks) (R : Text → Text → Bool)
    → IsIndex idx R
    → IsIndex
        (join ext v name idx)
        (λ k n. R k n || (text_eq v.key k && not (is_empty n) && text_eq name n))
join-IsIndex ext v name idx R h = record {
  by_key = λ k n. ground (
    arith,
    of-join ext v name idx k,
    contains-append_once n name (of idx k),
    h.by_key k n,
    text_eq_iff name n,
    text_eq_iff v.key k,
  );
  by_network = λ k n. ground (
    arith,
    members_of-join ext v name idx n,
    contains-append_once k v.key (members_of idx n),
    h.by_network k n,
    text_eq_iff name n,
    text_eq_iff v.key k,
  );
}

IsIndex-ext :
    (idx : Networks) (R S : Text → Text → Bool)
    → IsIndex idx R
    → ((k n : Text) → R k n ≡ S k n)
    → IsIndex idx S
IsIndex-ext idx R S h same = record {
  by_key = λ k n. h.by_key k n ∙ same k n;
  by_network = λ k n. h.by_network k n ∙ same k n;
}

join_all-IsIndex :
    (ext : Text → Bool) (v : Visit) (names : List Text) (idx : Networks) (R : Text → Text → Bool)
    → IsIndex idx R
    → IsIndex
        (join_all ext v names idx)
        (λ k n. R k n || (text_eq v.key k && not (is_empty n) && contains n names))
unfolding join_all contains
join_all-IsIndex ext v [] idx R h = IsIndex-ext idx R _ h (λ k n. ground arith)
join_all-IsIndex ext v (name ∷ names) idx R h =
    IsIndex-ext _ _ _
      (join_all-IsIndex ext v names (join ext v name idx) _ (join-IsIndex ext v name idx R h))
      (λ k n. ground arith)

join_each-IsIndex :
    (ext : Text → Bool) (vs : List Visit) (idx : Networks) (R : Text → Text → Bool)
    → IsIndex idx R
    → IsIndex (join_each ext vs idx) (λ k n. R k n || attached vs k n)
unfolding join_each attached
join_each-IsIndex ext [] idx R h = IsIndex-ext idx R _ h (λ k n. ground arith)
join_each-IsIndex ext (v ∷ vs) idx R h =
    IsIndex-ext _ _ _
      (join_each-IsIndex ext vs (join_all ext v v.service.networks idx) _
        (join_all-IsIndex ext v v.service.networks idx R h))
      (λ k n. ground arith)

new_networks-IsIndex :
    (stacks : List AppStack) → IsIndex (new_networks stacks) (attached (each stacks))
unfolding new_networks of members_of lookup contains
new_networks-IsIndex stacks =
    join_each-IsIndex (declared_external stacks) (each stacks) empty (λ k n. false)
      (record { by_key = λ k n. refl; by_network = λ k n. refl })

-- A network is among those of a key, and the key among its members, exactly if a service with that
-- key lists the network by a name that is not empty.
pub new_networks_lem :
    (stacks : List AppStack) (key name : Text)
    → (contains name (of (new_networks stacks) key) ≡ attached (each stacks) key name)
      × (contains key (members_of (new_networks stacks) name) ≡ attached (each stacks) key name)
new_networks_lem stacks key name =
    let i = new_networks-IsIndex stacks in (i.by_key key name, i.by_network key name)

common_sound :
    (xs ys : List Text)
    → no_names (common xs ys) ≡ false
    → (name : Text) × (contains name xs ≡ true) × (contains name ys ≡ true)
unfolding common contains
common_sound [] ys h = absurd (ground arith)
common_sound (x ∷ xs) ys h = elim (Bool-cases (contains x ys)) [
  | inl e ↦ (x, rw (text_eq_refl x) refl, e)
  | inr e ↦ let (name, here, there) = common_sound xs ys (rw e at h) in (name, ground arith, there)
]

common_complete :
    (xs ys : List Text) (name : Text)
    → contains name xs ≡ true
    → contains name ys ≡ true
    → no_names (common xs ys) ≡ false
unfolding common contains
common_complete [] ys name here there = absurd (ground arith)
common_complete (x ∷ xs) ys name here there =
    ground (arith, common_complete xs ys name, text_eq_iff x name)

-- Two services share a network exactly if they are two and both list one.
pub shares_any_iff :
    (stacks : List AppStack) (a b : Text)
    → (shares_any (new_networks stacks) a b ≡ true) ↔ (
        (a ≢ b)
        × (name : Text) × (attached (each stacks) a name ≡ true)
        × (attached (each stacks) b name ≡ true))
unfolding shares_any shared
shares_any_iff stacks a b = (
  (λ h.
      let different : text_eq a b ≡ false = ground arith in
      let (name, here, there) =
        common_sound (of (new_networks stacks) a) (of (new_networks stacks) b) (ground arith) in
      (
        λ e. ground (arith, text_eq_iff a b),
        name,
        sym (new_networks_lem stacks a name).0 ∙ here,
        sym (new_networks_lem stacks b name).0 ∙ there,
      )),
  (λ (different, name, here, there).
      let c =
        common_complete (of (new_networks stacks) a) (of (new_networks stacks) b) name
          ((new_networks_lem stacks a name).0 ∙ here)
          ((new_networks_lem stacks b name).0 ∙ there) in
      ground (arith, text_eq_iff a b)),
)
