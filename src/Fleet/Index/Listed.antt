-- ===== src/Fleet/Index/Listed.antt =====
-- What the tables list, and which candidates are left (index.go).
use labview.Common.{
  ◌≡◌, refl, Bool, false, ◌&&◌, ◌||◌, not, List, [], ◌∷◌, arith, if◌then◌else◌, Bool-cases, inl,
  inr,
}
use labview.Common.Text.{Text, text_eq, text_eq_iff, is_empty, contains, append_once}
use labview.Common.Map.{Map, lookup-insert}
use labview.Payload.{Service}
use labview.Fleet.{Visit}
use labview.Fleet.Networks.{Networks, shares_any}
use labview.Fleet.Index.{fold, listed, add_name, reachable}

-- Whether one of a list of names folds to a text that is not empty.
pub names : List Text → Text → Bool
names [] text = false
names (n ∷ ns) text = (not (is_empty (fold n)) && text_eq (fold n) text) || names ns text

-- Whether a visit with a key has such a name.
pub claims : (Service → List Text) → List Visit → Text → Text → Bool
claims f [] text key = false
claims f (v ∷ vs) text key = (text_eq v.key key && names (f v.service) text) || claims f vs text key

pub listed-add_name :
    (name key text : Text) (table : Map (List Text))
    → listed text (add_name name key table) ≡ (
        if not (is_empty (fold name)) && text_eq (fold name) text
        then append_once (listed text table) key
        else listed text table)
unfolding listed add_name
listed-add_name name key text table = elim (Bool-cases (is_empty (fold name))) [
  | inl e ↦ rw e refl
  | inr e ↦
      rw (e, lookup-insert)
        (elim (Bool-cases (text_eq (fold name) text)) [
          | inl k ↦ rw (k, (text_eq_iff (fold name) text).0 k) refl
          | inr k ↦ rw k refl
        ])
]

-- What is left of the candidates is each of them that is another service on a shared network.
pub contains-reachable :
    (nets : Networks) (from : Text) (candidates : List Text) (key : Text)
    → contains key (reachable nets from candidates)
      ≡ (contains key candidates && (not (text_eq key from) && shares_any nets from key))
unfolding reachable contains
contains-reachable nets from [] key = refl
contains-reachable nets from (c ∷ candidates) key = elim (Bool-cases (text_eq c key)) [
  | inl same ↦
      let e = (text_eq_iff c key).0 same in
      ground (arith, contains-reachable nets from candidates key, e)
  | inr other ↦ ground (arith, contains-reachable nets from candidates key)
]
