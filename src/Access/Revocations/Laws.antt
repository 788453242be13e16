-- ===== src/Access/Revocations/Laws.antt =====
-- What is held after a sign-out, and what is given up when there are too many (session.go, `add`
-- and `evict`).
use labview.Common.{
  ℕ, suc, ◌≤◌, ◌<◌, ◌≡◌, ◌≢◌, refl, ◌∙◌, sym, true, false, inl, inr, Bool-cases, List, [], ◌∷◌,
  none, some, arith, ltb, length, All, All-imp,
}
use native.Mathlib.Nat.{le_trans, le_refl}
use labview.Common.Text.{Text, text_eq_iff, text_eq_refl, Distinct, contains}
use labview.Common.Map.{Map, lookup, insert, remove, keys}
use labview.Access.Revocations.{entry_lt, insert_entry, sort_entries, drop_entries, evict, prune}

pub length-insert : (k : Text) (v : ℕ) (m : Map ℕ) → length (insert k v m) ≤ suc (length m)
unfolding insert
length-insert k v [] = omega arith
length-insert k v ((j, w) ∷ m) = ground (arith, length-insert k v m)

pub length-prune : (now : ℕ) (m : Map ℕ) → length (prune now m) ≤ length m
unfolding prune
length-prune now [] = omega arith
length-prune now ((j, w) ∷ m) = ground (arith, length-prune now m)

length-remove : (k : Text) (m : Map ℕ) → length (remove k m) ≤ length m
unfolding remove
length-remove k [] = omega arith
length-remove k ((j, w) ∷ m) = ground (arith, length-remove k m)

-- Removing what is there makes the table smaller.
pub length-remove_lt : (k : Text) (m : Map ℕ) → lookup k m ≢ none → length (remove k m) < length m
unfolding remove lookup
length-remove_lt k [] h = absurd (h refl)
length-remove_lt k ((j, w) ∷ m) h = ground (arith, length-remove_lt k m, length-remove k m)

-- The head of a sorted list expires no later than the others.
abbrev pub IsEarliest : ℕ → List (Text × ℕ) → Type 0
IsEarliest x es = All (λ (e : Text × ℕ). x ≤ e.1) es

module _ {ℓ} (P : Text × ℕ → Type ℓ) where
  insert_entry-All_intro :
      (e : Text × ℕ) (es : List (Text × ℕ)) → P e → All P es → All P (insert_entry e es)
  unfolding insert_entry
  insert_entry-All_intro e [] h hs = (h, tt)
  insert_entry-All_intro e (f ∷ fs) h hs = elim (Bool-cases (entry_lt f e)) [
    | inl before ↦ rw (before, insert_entry) (hs.0, insert_entry-All_intro e fs h hs.1)
    | inr after ↦ rw (after, insert_entry) (h, hs)
  ]

  sort_entries-All_intro : (es : List (Text × ℕ)) → All P es → All P (sort_entries es)
  unfolding sort_entries
  sort_entries-All_intro [] h = tt
  sort_entries-All_intro (e ∷ es) h =
      insert_entry-All_intro e (sort_entries es) h.0 (sort_entries-All_intro es h.1)

abbrev IsSorted : List (Text × ℕ) → Type 0
IsSorted [] = Unit
IsSorted (e ∷ es) = IsEarliest e.1 es × IsSorted es

entry_lt-le : (f e : Text × ℕ) → entry_lt f e ≡ true → f.1 ≤ e.1
unfolding entry_lt
entry_lt-le (j, a) (k, b) h = ground arith

not-entry_lt-le : (f e : Text × ℕ) → entry_lt f e ≡ false → e.1 ≤ f.1
unfolding entry_lt
not-entry_lt-le (j, a) (k, b) h = ground arith

insert_entry-IsSorted :
    (e : Text × ℕ) (es : List (Text × ℕ)) → IsSorted es → IsSorted (insert_entry e es)
unfolding insert_entry
insert_entry-IsSorted e [] s = (tt, tt)
insert_entry-IsSorted e (f ∷ fs) s = elim (Bool-cases (entry_lt f e)) [
  | inl before ↦
      rw (before, insert_entry)
        (
          insert_entry-All_intro (λ g. f.1 ≤ g.1) e fs (entry_lt-le f e before) s.0,
          insert_entry-IsSorted e fs s.1,
        )
  | inr after ↦
      let le = not-entry_lt-le f e after in
      rw (after, insert_entry) ((le, All-imp fs (λ g h. le_trans le h) s.0), s)
]

sort_entries-IsSorted : (es : List (Text × ℕ)) → IsSorted (sort_entries es)
unfolding sort_entries
sort_entries-IsSorted [] = tt
sort_entries-IsSorted (e ∷ es) =
    insert_entry-IsSorted e (sort_entries es) (sort_entries-IsSorted es)

-- Sorting keeps the entries.
module _ {ℓ} (P : Text × ℕ → Type ℓ) where
  insert_entry-All :
      (e : Text × ℕ) (es : List (Text × ℕ)) → All P (insert_entry e es) → P e × All P es
  unfolding insert_entry
  insert_entry-All e [] h = h
  insert_entry-All e (f ∷ fs) h = elim (Bool-cases (entry_lt f e)) [
    | inl before ↦
        let (p, ps) = rw (before, insert_entry) at h in
        let (q, qs) = insert_entry-All e fs ps in (q, (p, qs))
    | inr after ↦ rw (after, insert_entry) at h
  ]

  sort_entries-All : (es : List (Text × ℕ)) → All P (sort_entries es) → All P es
  unfolding sort_entries
  sort_entries-All [] h = tt
  sort_entries-All (e ∷ es) h =
      let (p, q) = insert_entry-All e (sort_entries es) h in (p, sort_entries-All es q)

All-both {ℓ κ μ} :
    {A : Type ℓ} (P : A → Type κ) (Q : A → Type μ) (xs : List A)
    → All P xs
    → All Q xs
    → All (λ a. P a × Q a) xs
All-both P Q [] p q = tt
All-both P Q (x ∷ xs) p q = ((p.0, q.0), All-both P Q xs p.1 q.1)

All-key : (held : Map ℕ) → All (λ (e : Text × ℕ). contains e.0 (keys held) ≡ true) held
unfolding contains
All-key [] = tt
All-key ((j, w) ∷ held) = (rw text_eq_refl refl, All-imp held (λ e h. ground arith) (All-key held))

-- Every entry of a table with distinct keys is what a lookup finds.
All-lookup :
    (held : Map ℕ) → Distinct (keys held) → All (λ (e : Text × ℕ). lookup e.0 held ≡ some e.1) held
unfolding lookup
All-lookup [] d = tt
All-lookup ((j, w) ∷ held) d = (
  rw text_eq_refl refl,
  All-imp held (λ e h. later e h) (All-both _ _ held (All-lookup held d.1) (All-key held)),
)
  where
    later :
        (e : Text × ℕ)
        → (lookup e.0 held ≡ some e.1) × (contains e.0 (keys held) ≡ true)
        → lookup e.0 ((j, w) ∷ held) ≡ some e.1
    later e h = ground (arith, text_eq_iff j e.0, d.0)

drop_entries-fits :
    (limit : ℕ) (es : List (Text × ℕ)) (held : Map ℕ)
    → length held ≤ limit
    → drop_entries limit es held ≡ held
unfolding drop_entries
drop_entries-fits limit [] held h = refl
drop_entries-fits limit ((k, x) ∷ es) held h = ground arith

drop_entries-one :
    (limit : ℕ) (k : Text) (x : ℕ) (es : List (Text × ℕ)) (held : Map ℕ)
    → length held ≡ suc limit
    → length (remove k held) < length held
    → drop_entries limit ((k, x) ∷ es) held ≡ remove k held
unfolding drop_entries
drop_entries-one limit k x es held full less =
    let over : ltb limit (length held) ≡ true = ground arith in
    rw (over, drop_entries) (drop_entries-fits limit es (remove k held) (omega arith))

not-all_earliest : (held : Map ℕ) {n : ℕ} → length held ≡ suc n → ((x : ℕ) → IsEarliest x held) → ⊥
not-all_earliest [] full h = omega arith
not-all_earliest (e ∷ held) full h = let less = (h (suc e.1)).0 in omega arith

-- One too many: exactly one entry goes, and no entry of the table expires before it.
pub evict-one :
    (limit : ℕ) (held : Map ℕ)
    → length held ≡ suc limit
    → Distinct (keys held)
    → (k : Text) × (x : ℕ) × (evict limit held ≡ remove k held)
      × (lookup k held ≡ some x)
      × IsEarliest x held
unfolding evict
evict-one limit held full d =
    go (sort_entries held) (sort_entries-IsSorted held)
      (sort_entries-All_intro (λ e. lookup e.0 held ≡ some e.1) held (All-lookup held d))
      (λ x h. sort_entries-All (λ e. x ≤ e.1) held h)
  where
    go :
        (es : List (Text × ℕ))
        → IsSorted es
        → All (λ (e : Text × ℕ). lookup e.0 held ≡ some e.1) es
        → ((x : ℕ) → IsEarliest x es → IsEarliest x held)
        → (k : Text) × (x : ℕ) × (drop_entries limit es held ≡ remove k held)
          × (lookup k held ≡ some x)
          × IsEarliest x held
    go [] s l back = absurd (not-all_earliest held full (λ x. back x tt))
    go ((k, x) ∷ es) s l back = (
      k,
      x,
      drop_entries-one limit k x es held full
          (length-remove_lt k held (λ e. let f : none ≡ some x = sym e ∙ l.0 in cc)),
      l.0,
      back x (le_refl x, s.0),
    )
