-- ===== src/Access/Passwd/Accepted.antt =====
-- What the accounts of a passwd file are like, whatever the file holds.
use labview.Common.{
  ℕ, suc, ◌+◌, ◌≤◌, ◌≡◌, true, false, ◌||◌, List, [], ◌∷◌, none, some, leb, ltb, length, arith, All,
  Option-cases, Bool-cases, inl, inr,
}
use labview.Common.Text.{Text, codes, is_empty, has_prefix, trim_space, Distinct, split_byte}
use labview.Common.Map.{Map, lookup, insert, keys, Distinct-insert}
use labview.Access.Username.{valid_username}
use labview.Access.Passwd.{
  Warning, max_passwd_entries, max_passwd_bytes, honoured_prefixes, any_prefix, algorithm, split,
  judge_line, add_account, add_warning, parse_from, parse_passwd, trim_suffix_return,
}

-- A pair that the gate may check a password against.
pub IsAccount : Text × Text → Type 0
IsAccount account =
    (valid_username account.0 ≡ true) × (any_prefix account.1 honoured_prefixes ≡ true)

-- A table of accounts: each a name the login accepts with a hash it honours, no name twice, and
-- no more of them than the bound.
pub IsTable : Map Text → Type 0
IsTable entries =
    All IsAccount entries × Distinct (keys entries) × (length entries ≤ max_passwd_entries)

algorithm-honoured :
    (hash : Text) → algorithm hash ≡ none → any_prefix hash honoured_prefixes ≡ true
unfolding algorithm
algorithm-honoured hash h = ground arith

All-insert :
    (user hash : Text) (entries : Map Text)
    → IsAccount (user, hash)
    → lookup user entries ≡ none
    → All IsAccount entries
    → All IsAccount (insert user hash entries)
unfolding insert lookup
All-insert user hash [] a new h = (a, tt)
All-insert user hash ((u, k) ∷ entries) a new h = ground (arith, All-insert user hash entries)

length-insert :
    (user hash : Text) (entries : Map Text)
    → length (insert user hash entries) ≤ suc (length entries)
unfolding insert
length-insert user hash [] = omega arith
length-insert user hash ((u, k) ∷ entries) = ground (arith, length-insert user hash entries)

judged-IsAccount :
    (line : Text) (entries : Map Text) (user hash : Text)
    → (judge_line line entries).0 ≡ some (user, hash)
    → IsAccount (user, hash) × (lookup user entries ≡ none)
unfolding judge_line IsAccount
judged-IsAccount line entries user hash h = elim (Option-cases (split line)) [
  | inl e ↦ ground arith
  | inr ((u, k), e) ↦ elim (Option-cases (algorithm k)) [
    | inr (id, bad) ↦ ground arith
    | inl good ↦ elim (Option-cases (lookup u entries)) [
      | inr (old, twice) ↦ ground arith
      | inl new ↦ ground (arith, algorithm-honoured k good)
    ]
  ]
]

judged-IsTable :
    (line : Text) (entries : Map Text)
    → leb max_passwd_entries (length entries) ≡ false
    → IsTable entries
    → IsTable (add_account (judge_line line entries).0 entries)
unfolding IsTable
judged-IsTable line entries room t = elim (Option-cases (judge_line line entries).0) [
  | inl e ↦ rw e t
  | inr ((user, hash), e) ↦
      let a = judged-IsAccount line entries user hash e in
      rw e (
        All-insert user hash entries a.0 a.1 t.0,
        Distinct-insert user hash entries t.1,
        ground (arith, length-insert user hash entries),
      )
]

parse_from-IsTable :
    (n : ℕ) (lines : List Text) (entries : Map Text) (warnings : List (ℕ × Warning))
    → IsTable entries
    → IsTable (parse_from n lines entries warnings).0
unfolding parse_from
parse_from-IsTable n [] entries warnings t = t
parse_from-IsTable n (raw ∷ lines) entries warnings t =
    let line = trim_space (trim_suffix_return raw) in
    elim (Bool-cases (is_empty line || has_prefix line (codes "#"))) [
      | inl skip ↦ rw (parse_from, skip) (parse_from-IsTable (n + 1) lines entries warnings t)
      | inr kept ↦ elim (Bool-cases (leb max_passwd_entries (length entries))) [
        | inl full ↦ rw (parse_from, kept, full) t
        | inr room ↦
            rw (parse_from, kept, room)
              (parse_from-IsTable (n + 1) lines (add_account (judge_line line entries).0 entries)
                (add_warning (n + 1) (judge_line line entries).1 warnings)
                (judged-IsTable line entries room t))
      ]
    ]

-- Whatever a passwd file holds, each account read from it has a name that the login accepts and a
-- hash whose prefix is honoured, no name has two accounts, and there are at most 1000 accounts.
pub parse_passwd-IsTable : (content : Text) → IsTable (parse_passwd content).entries
unfolding parse_passwd IsTable
parse_passwd-IsTable content = elim (Bool-cases (ltb max_passwd_bytes (length content))) [
  | inl big ↦ rw (parse_passwd, big) (tt, tt, omega arith)
  | inr fits ↦
      rw (parse_passwd, fits)
        (parse_from-IsTable 0 (split_byte 10 content) [] [] (tt, tt, omega arith))
]
