-- ===== src/Access/Throttle/Table.antt =====
-- The throttle's table and its order name the same keys, and stay within the bound (throttle.go,
-- `Failed`, `Succeeded` and `evict`).
use labview.Common.{
  ℕ, ◌≤◌, ◌<◌, ◌≡◌, refl, sym, ap, ◌∙◌, Bool-cases, Option-cases, inl, inr, List, [], ◌∷◌, none,
  some, arith, leb, length, length-append,
}
use labview.Common.Text.{Text, Distinct, Distinct-concat}
use labview.Common.Map.{
  Map, lookup, insert, remove, without, keys, length-keys, keys-remove, keys-insert_new,
  keys-insert_old, without-head, lookup-remove, without_first-of_Distinct, Distinct-without,
  length-without, lookup-none_iff, lookup-insert_self,
}
use labview.Access.Username.{throttle_key}
use labview.Access.Throttle.{
  Throttle, Attempts, max_throttle_keys, evict_from, evict, open_window, failed, succeeded, tracked,
  new, fresh,
}

-- The order lists exactly the keys that are counted, each once, and there are not too many.
pub record IsSynced (t : Throttle) : Type 0 where
  pub listed : keys t.entries ≡ t.order
  pub distinct : Distinct t.order
  pub bounded : length t.order ≤ max_throttle_keys

-- What `evict` leaves, from a table and an order that agree.
record IsRoomy (m : Map Attempts) (order : List Text) : Type 0 where
  listed : keys m ≡ order
  distinct : Distinct order
  room : length order < max_throttle_keys

evict_from-IsRoomy :
    (m : Map Attempts) (order : List Text)
    → keys m ≡ order
    → Distinct order
    → IsRoomy (evict_from m order).0 (evict_from m order).1
unfolding evict_from
evict_from-IsRoomy m [] e d = record { listed = e; distinct = tt; room = omega arith }
evict_from-IsRoomy m (k ∷ order) e d = elim (Bool-cases (leb max_throttle_keys (length m))) [
  | inl full ↦
      rw (full, evict_from)
        (evict_from-IsRoomy (remove k m) order
          (keys-remove k m ∙ ap (without k) e ∙ without-head k order d.0) d.1)
  | inr room ↦
      rw (room, evict_from)
        (record { listed = e; distinct = d; room = ground (arith, length-keys m, ap length e) })
]

-- Eviction brings no key back.
evict_from-lookup-none :
    (k : Text) (m : Map Attempts) (order : List Text)
    → lookup k m ≡ none
    → lookup k (evict_from m order).0 ≡ none
unfolding evict_from
evict_from-lookup-none k m [] h = h
evict_from-lookup-none k m (j ∷ order) h = elim (Bool-cases (leb max_throttle_keys (length m))) [
  | inl full ↦
      rw (full, evict_from)
        (evict_from-lookup-none k (remove j m) order (ground (arith, lookup-remove j k m)))
  | inr room ↦ rw (room, evict_from) h
]

evict-lookup-none :
    (k : Text) (t : Throttle) → lookup k t.entries ≡ none → lookup k (evict t).entries ≡ none
unfolding evict
evict-lookup-none k t h = evict_from-lookup-none k t.entries t.order h

evict_from-below :
    (m : Map Attempts) (order : List Text)
    → length m < max_throttle_keys
    → evict_from m order ≡ (m, order)
unfolding evict_from
evict_from-below m [] h = refl
evict_from-below m (k ∷ order) h = ground arith

-- Room for one more: nothing is evicted from a table below the bound.
pub evict-below : (t : Throttle) → length t.entries < max_throttle_keys → evict t ≡ t
unfolding evict
evict-below t h = ground (arith, evict_from-below t.entries t.order h)

-- A write to a key that is counted changes neither the keys nor the order.
write-IsSynced :
    (t : Throttle) (key : Text) (e : Attempts) {w : Attempts}
    → lookup key t.entries ≡ some w
    → IsSynced t
    → IsSynced (record t { entries = insert key e t.entries })
write-IsSynced t key e {w = w} h s = record {
  listed = keys-insert_old key e w t.entries h ∙ s.listed;
  distinct = s.distinct;
  bounded = s.bounded;
}

module _ (t : Throttle) (s : IsSynced t) (key : Text) (now : ℕ) where
  evict-IsRoomy : IsRoomy (evict t).entries (evict t).order
  unfolding evict
  evict-IsRoomy = evict_from-IsRoomy t.entries t.order s.listed s.distinct

  -- A new name takes the place that eviction made.
  open_new-IsSynced : lookup key t.entries ≡ none → IsSynced (open_window t key now).0
  unfolding open_window
  open_new-IsSynced h =
      let gone = evict-lookup-none key t h in
      let listed = keys-insert_new key (fresh now) (evict t).entries gone in
      let absent = lookup-none_iff key (evict t).entries gone in
      rw (h, open_window)
        (record {
          listed = rw (listed, evict-IsRoomy.listed) refl;
          distinct =
              Distinct-concat (evict t).order key (rw evict-IsRoomy.listed at absent)
                evict-IsRoomy.distinct;
          bounded = omega (arith, length-append (evict t).order (key ∷ []), evict-IsRoomy.room);
        })

  open_old-IsSynced :
      {w : Attempts} → lookup key t.entries ≡ some w → IsSynced (open_window t key now).0
  unfolding open_window
  open_old-IsSynced h = rw (h, open_window) s

  open_window-IsSynced : IsSynced (open_window t key now).0
  open_window-IsSynced = elim (Option-cases (lookup key t.entries)) [
    | inl h ↦ open_new-IsSynced h
    | inr (w, h) ↦ open_old-IsSynced h
  ]

open_window-counted :
    (t : Throttle) (key : Text) (now : ℕ)
    → (w : Attempts) × (lookup key (open_window t key now).0.entries ≡ some w)
unfolding open_window
open_window-counted t key now = elim (Option-cases (lookup key t.entries)) [
  | inl h ↦ (fresh now, rw (h, open_window) (lookup-insert_self key (fresh now) (evict t).entries))
  | inr (w, h) ↦ (w, rw (h, open_window) h)
]

-- A failure keeps the table and the order in step and within the bound, also where it evicts.
failed-IsSynced :
    (t : Throttle) (user : Text) (now : ℕ) → IsSynced t → IsSynced (failed t user now).0
unfolding failed
failed-IsSynced t user now s = elim (Bool-cases (leb t.max 0)) [
  | inl off ↦ rw off s
  | inr on ↦ rw on (
      write-IsSynced (open_window t (throttle_key user) now).0 (throttle_key user) _
        (open_window-counted t (throttle_key user) now).1
        (open_window-IsSynced t s (throttle_key user) now))
]

-- So does a success, which forgets the name in both.
succeeded-IsSynced : (t : Throttle) (user : Text) → IsSynced t → IsSynced (succeeded t user)
unfolding succeeded
succeeded-IsSynced t user s = elim (Option-cases (lookup (throttle_key user) t.entries)) [
  | inl h ↦ rw (h, succeeded) s
  | inr (w, h) ↦
      rw (h, succeeded)
        (record {
          listed =
              rw (keys-remove (throttle_key user) t.entries, s.listed)
                (sym (without_first-of_Distinct (throttle_key user) t.order s.distinct));
          distinct =
              rw (without_first-of_Distinct (throttle_key user) t.order s.distinct)
                (Distinct-without (throttle_key user) t.order s.distinct);
          bounded =
              rw (without_first-of_Distinct (throttle_key user) t.order s.distinct)
                (omega (arith, length-without (throttle_key user) t.order, s.bounded));
        })
]

-- What a server does with its throttle: a name fails or succeeds at some time.
pub data Attempt : Type 0 where
  fails : Text → ℕ → Attempt
  succeeds : Text → Attempt

pub attempt : Throttle → Attempt → Throttle
attempt t (fails user now) = (failed t user now).0
attempt t (succeeds user) = succeeded t user

pub run : Throttle → List Attempt → Throttle
unfolding attempt
run t [] = t
run t (a ∷ rest) = run (attempt t a) rest

run-IsSynced : (t : Throttle) (attempts : List Attempt) → IsSynced t → IsSynced (run t attempts)
unfolding run
run-IsSynced t [] s = s
run-IsSynced t (fails user now ∷ rest) s =
    run-IsSynced (failed t user now).0 rest (failed-IsSynced t user now s)
run-IsSynced t (succeeds user ∷ rest) s =
    run-IsSynced (succeeded t user) rest (succeeded-IsSynced t user s)

-- After any sequence of failed and successful logins, from a new throttle with any settings, the
-- order lists exactly the names that are counted, each once, and there are at most
-- `max_throttle_keys` of them.
pub run_bounded :
    (most window : ℕ) (attempts : List Attempt)
    → IsSynced (run (new most window) attempts)
      × (tracked (run (new most window) attempts) ≤ max_throttle_keys)
unfolding tracked
run_bounded most window attempts =
    let s =
      run-IsSynced (new most window) attempts
        (record { listed = refl; distinct = tt; bounded = omega arith }) in
    (
      s,
      omega (
        arith,
        length-keys (run (new most window) attempts).entries,
        ap length s.listed,
        s.bounded,
      ),
    )
