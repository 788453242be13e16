-- ===== src/Labels/Indexed.antt =====
-- The index of a route: a decimal number, bounded (dockflare.go, `cfSplitIndex`).
use labview.Common.{
  ℕ, ◌+◌, ◌-◌, ◌*◌, ◌≤◌, ◌≡◌, refl, Bool, true, false, ◌&&◌, [], ◌∷◌, ◌++◌, none, some, arith, leb,
  ltb, if◌then◌else◌, Bool-cases, inl, inr,
}
use labview.Common.Text.{Text, is_empty, has_byte, cut_byte_complete}
use labview.Labels.{max_index, index_from, cf_split_index}

-- The number that digits write, behind those already read.
unfoldable pub number_from : ℕ → Text → ℕ
number_from n [] = n
number_from n (c ∷ s) = number_from (n * 10 + (c - b'0')) s

unfoldable pub all_digits : Text → Bool
all_digits [] = true
all_digits (c ∷ s) = leb b'0' c && leb c b'9' && all_digits s

number_from_ge : (n : ℕ) (s : Text) → n ≤ number_from n s
unfolding number_from
number_from_ge n [] = omega arith
number_from_ge n (c ∷ s) = omega (arith, number_from_ge (n * 10 + (c - b'0')) s)

index_from_lem :
    (n : ℕ) (s : Text)
    → n ≤ max_index
    → index_from n s
      ≡ (if all_digits s && leb (number_from n s) max_index then some (number_from n s) else none)
unfolding index_from number_from all_digits
index_from_lem n [] h = ground arith
index_from_lem n (c ∷ s) h =
    let next = n * 10 + (c - b'0') in
    elim (Bool-cases (ltb max_index next)) [
      | inl over ↦ ground (arith, number_from_ge next s)
      | inr within ↦ ground (arith, index_from_lem next s)
    ]

-- What stands before the first dot is the index of a route exactly if it is digits that write a number of
-- at most 2^20, however many digits there are; otherwise the whole is a field of the flat form.
pub cf_split_index-number_from :
    (head tail : Text)
    → has_byte b'.' head ≡ false
    → is_empty head ≡ false
    → cf_split_index (head ++ b'.' ∷ tail) ≡ (
        if all_digits head && leb (number_from 0 head) max_index
        then (some (number_from 0 head), tail)
        else (none, head ++ b'.' ∷ tail))
unfolding cf_split_index
cf_split_index-number_from head tail dot full =
    rw
      (
        cf_split_index,
        cut_byte_complete b'.' head tail dot,
        full,
        index_from_lem 0 head (omega arith),
      )
      (elim (Bool-cases (all_digits head && leb (number_from 0 head) max_index)) [
        | inl e ↦ rw e refl
        | inr e ↦ rw e refl
      ])
