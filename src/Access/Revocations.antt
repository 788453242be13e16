-- ===== src/Access/Revocations.antt =====
-- internal/access/session.go, "Revocation": the identifiers of the sessions that were signed out,
-- with the time at which each stops to matter. Times are nanoseconds since the epoch; the mutex
-- makes each method one step. The cap is an argument, and `max_revocations` in the program.
pub mod Laws
pub mod Held
mod Tests
use labview.Common.{
  ℕ, ◌<◌, Bool, true, false, ◌&&◌, ◌||◌, List, [], ◌∷◌, Option, none, some, leb, ltb, ◌==◌,
  if◌then◌else◌, length, not,
}
use labview.Common.Text.{text_lt, Text, is_empty}
use labview.Common.Map.{Map, lookup, insert, remove}

abbrev pub max_revocations : ℕ
max_revocations = 10_000

-- the comparison that `evict` sorts by: earliest expiry first, ties on the identifier
pub entry_lt : Text × ℕ → Text × ℕ → Bool
entry_lt (j, a) (k, b) = if a == b then text_lt j k else ltb a b

-- `sort.Slice`, whose order is determined here: identifiers differ.
insert_entry : Text × ℕ → List (Text × ℕ) → List (Text × ℕ)
insert_entry e [] = e ∷ []
insert_entry e (f ∷ fs) = if entry_lt f e then f ∷ insert_entry e fs else e ∷ f ∷ fs

pub sort_entries : List (Text × ℕ) → List (Text × ℕ)
unfolding insert_entry entry_lt text_lt
sort_entries [] = []
sort_entries (e ∷ es) = insert_entry e (sort_entries es)

-- the last loop of `evict`
pub drop_entries : ℕ → List (Text × ℕ) → Map ℕ → Map ℕ
drop_entries limit [] held = held
drop_entries limit ((jti, exp) ∷ rest) held = elim (ltb limit (length held)) [
  | true ↦ drop_entries limit rest (remove jti held)
  | false ↦ held
]

pub evict : ℕ → Map ℕ → Map ℕ
unfolding drop_entries sort_entries
evict limit held = drop_entries limit (sort_entries held) held

-- the loop of `add` that prunes
pub prune : ℕ → Map ℕ → Map ℕ
prune now [] = []
prune now ((jti, exp) ∷ held) =
    if not (ltb now exp) then prune now held else (jti, exp) ∷ prune now held

unfoldable pub add : ℕ → Text → ℕ → ℕ → Map ℕ → Map ℕ
unfolding prune evict
add limit jti expiry now held =
    if is_empty jti
    then held
    else let held' = insert jti expiry (prune now held) in
      let evicted = evict limit held' in if ltb limit (length held') then evicted else held'

unfoldable pub has : Text → Map ℕ → Bool
has jti held = elim (lookup jti held) [ none ↦ false | some exp ↦ true ]
