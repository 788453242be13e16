-- ===== src/Access/Revocations/Held.antt =====
-- The revocation set over its life: bounded, true to its sign-outs while there is room, and giving
-- up the earliest expiry where there is not (session.go, `add`).
use labview.Common.{
  ℕ, suc, ◌≤◌, ◌<◌, ◌≡◌, refl, ◌∙◌, sym, true, false, inl, inr, Bool-cases, List, [], ◌∷◌, Option,
  none, some, arith, leb, ltb, if◌then◌else◌, length, leb→le,
}
use labview.Common.Text.{Text, text_eq, text_eq_iff, is_empty, Distinct, contains}
use labview.Common.Map.{
  Map, lookup, insert, keys, lookup-insert, lookup-remove, lookup-of_not_contains, keys-remove,
  Distinct-insert, Distinct-without,
}
use labview.Access.Revocations.{evict, prune, add}
use labview.Access.Revocations.Laws.{
  length-insert, length-prune, length-remove_lt, evict-one, IsEarliest,
}

pub record IsHeld (limit : ℕ) (held : Map ℕ) : Type 0 where
  pub distinct : Distinct (keys held)
  pub bounded : length held ≤ limit

contains-prune :
    (now : ℕ) (j : Text) (held : Map ℕ)
    → contains j (keys held) ≡ false
    → contains j (keys (prune now held)) ≡ false
unfolding prune contains
contains-prune now j [] h = refl
contains-prune now j ((k, x) ∷ held) h = ground (arith, contains-prune now j held)

Distinct-prune : (now : ℕ) (held : Map ℕ) → Distinct (keys held) → Distinct (keys (prune now held))
unfolding prune
Distinct-prune now [] d = tt
Distinct-prune now ((k, x) ∷ held) d =
    ground (arith, Distinct-prune now held d.1, contains-prune now k held d.0)

-- What an expiry that is held is worth at a time.
abbrev pub unexpired : ℕ → Option ℕ → Option ℕ
unexpired now none = none
unexpired now (some x) = if ltb now x then some x else none

lookup-prune :
    (now : ℕ) (j : Text) (held : Map ℕ)
    → Distinct (keys held)
    → lookup j (prune now held) ≡ unexpired now (lookup j held)
unfolding prune lookup
lookup-prune now j [] d = refl
lookup-prune now j ((k, x) ∷ held) d = ground (
  arith,
  lookup-prune now j held d.1,
  text_eq_iff k j,
  lookup-of_not_contains k (prune now held) (contains-prune now k held d.0),
)

IsEarliest-lookup :
    (x : ℕ) (k : Text) (y : ℕ) (held : Map ℕ) → IsEarliest x held → lookup k held ≡ some y → x ≤ y
unfolding lookup
IsEarliest-lookup x k y [] e h = ground arith
IsEarliest-lookup x k y ((j, w) ∷ held) e h = ground (arith, IsEarliest-lookup x k y held e.1, e.0)

module _ (limit : ℕ) (jti : Text) (expiry now : ℕ) (held : Map ℕ) (named : is_empty jti ≡ false)
    (h : IsHeld limit held) where
  -- the table before `evict`
  abbrev grown : Map ℕ
  grown = insert jti expiry (prune now held)

  grown-Distinct : Distinct (keys grown)
  grown-Distinct = Distinct-insert jti expiry (prune now held) (Distinct-prune now held h.distinct)

  grown-length : length grown ≤ suc limit
  grown-length =
      omega (arith, length-insert jti expiry (prune now held), length-prune now held, h.bounded)

  lookup-grown :
      (j : Text)
      → lookup j grown ≡ (if text_eq jti j then some expiry else unexpired now (lookup j held))
  lookup-grown j =
      ground
        (arith, lookup-insert jti j expiry (prune now held), lookup-prune now j held h.distinct)

  -- While there is room the set holds the new identifier, and of the others those that still matter,
  -- each with its expiry.
  pub lookup-add :
      (j : Text)
      → length held < limit
      → lookup j (add limit jti expiry now held)
        ≡ (if text_eq jti j then some expiry else unexpired now (lookup j held))
  unfolding add
  lookup-add j room =
      ground
        (arith, lookup-grown j, length-insert jti expiry (prune now held), length-prune now held)

  add-full : length grown ≡ suc limit → add limit jti expiry now held ≡ evict limit grown
  unfolding add
  add-full full = ground arith

  add-room : length grown ≤ limit → add limit jti expiry now held ≡ grown
  unfolding add
  add-room room = ground arith

  -- Where an identifier is given up, every one that stays expires no earlier.
  pub add-evicts-earliest :
      (j : Text) (x : ℕ) (k : Text) (y : ℕ)
      → lookup j (insert jti expiry (prune now held)) ≡ some x
      → lookup j (add limit jti expiry now held) ≡ none
      → lookup k (add limit jti expiry now held) ≡ some y
      → x ≤ y
  add-evicts-earliest j x k y was gone stays = elim (Bool-cases (leb (length grown) limit)) [
    | inl room ↦
        let e = add-room (leb→le _ _ room) in
        let gone' = rw e at gone in let f : some x ≡ none = sym was ∙ gone' in cc
    | inr full ↦
        let n : length grown ≡ suc limit = ground (arith, grown-length) in
        let (k', x', cut, found, earliest) = evict-one limit grown n grown-Distinct in
        let e = add-full n ∙ cut in
        let gone' = rw e at gone in
        let stays' = rw e at stays in
        ground (
          arith,
          lookup-remove k' j grown,
          lookup-remove k' k grown,
          text_eq_iff k' j,
          IsEarliest-lookup x' k y grown earliest,
        )
  ]

  add-IsHeld : IsHeld limit (add limit jti expiry now held)
  add-IsHeld = elim (Bool-cases (leb (length grown) limit)) [
    | inl room ↦
        rw (add-room (leb→le _ _ room))
          (record { distinct = grown-Distinct; bounded = leb→le _ _ room })
    | inr full ↦
        let n : length grown ≡ suc limit = ground (arith, grown-length) in
        let (k, x, cut, found, earliest) = evict-one limit grown n grown-Distinct in
        rw (add-full n ∙ cut) (record {
          distinct = rw (keys-remove k grown) (Distinct-without k (keys grown) grown-Distinct);
          bounded = omega (
            arith,
            length-remove_lt k grown (λ e. let f : none ≡ some x = sym e ∙ found in cc),
            n,
          );
        })
  ]

add_unnamed :
    (limit expiry now : ℕ) (held : Map ℕ) (jti : Text)
    → is_empty jti ≡ true
    → add limit jti expiry now held ≡ held
unfolding add
add_unnamed limit expiry now held jti e = rw e

-- One sign-out: an identifier, its expiry, and when it happened.
pub record SignOut : Type 0 where
  pub jti : Text
  pub expiry : ℕ
  pub at : ℕ

pub add_all : ℕ → Map ℕ → List SignOut → Map ℕ
add_all limit held [] = held
add_all limit held (s ∷ rest) = add_all limit (add limit s.jti s.expiry s.at held) rest

add_all-IsHeld :
    (limit : ℕ) (held : Map ℕ) (rest : List SignOut)
    → IsHeld limit held
    → IsHeld limit (add_all limit held rest)
unfolding add_all
add_all-IsHeld limit held [] h = h
add_all-IsHeld limit held (s ∷ rest) h = elim (Bool-cases (is_empty s.jti)) [
  | inl unnamed ↦
      rw (add_unnamed limit s.expiry s.at held s.jti unnamed) (add_all-IsHeld limit held rest h)
  | inr named ↦
      add_all-IsHeld limit (add limit s.jti s.expiry s.at held) rest
        (add-IsHeld limit s.jti s.expiry s.at held named h)
]

-- After any sequence of sign-outs, under any cap, the set holds each identifier once, and no more of
-- them than the cap.
pub add_all_bounded : (limit : ℕ) (rest : List SignOut) → IsHeld limit (add_all limit [] rest)
add_all_bounded limit rest =
    add_all-IsHeld limit [] rest (record { distinct = tt; bounded = omega arith })
