-- ===== src/Access/Throttle.antt =====
-- internal/access/throttle.go: failed logins per name, and the lock that they lead to.
--
-- Times and durations are nanoseconds, counted from a moment before every time that occurs. The
-- fields `max` and `window` hold 0 for a setting of zero or less, which every use treats alike.
-- `now.Sub(first) >= window` is written `first + window ≤ now`, and `window - now.Sub(first)` is
-- written `first + window - now`: where Go's difference is negative ours is 0, and the next line
-- raises both to a second. The mutex makes each method one step.

pub mod Table
pub mod Lock
pub mod Retry
mod Tests
use labview.Common.{
  ℕ, ◌+◌, ◌-◌, ◌%◌, Bool, ◌||◌, true, false, List, [], ◌∷◌, ◌++◌, Option, none, some, leb, ltb,
  if◌then◌else◌, length,
}
use labview.Common.Text.{Text}
use labview.Common.Map.{Map, lookup, insert, remove, without_first}
use labview.Access.Username.{throttle_key}

abbrev pub max_throttle_keys : ℕ
max_throttle_keys = 4096

abbrev pub second : ℕ
second = 1_000_000_000

pub record Attempts : Type 0 where
  pub count : ℕ
  pub first : ℕ
  pub last : ℕ

pub record Throttle : Type 0 where
  pub max : ℕ
  pub window : ℕ
  pub entries : Map Attempts
  pub order : List Text

pub record Verdict : Type 0 where
  pub locked : Bool
  pub retry_after : ℕ

abbrev pub new : ℕ → ℕ → Throttle
new most window = record { max = most; window = window; entries = []; order = [] }

abbrev pub allowed : Verdict
allowed = record { locked = false; retry_after = 0 }

-- `Duration.Round(time.Second)` of a duration that is not negative: half a second goes up.
unfoldable pub round_second : ℕ → ℕ
round_second d = let r = d % second in if ltb (r + r) second then d - r else d + second - r

pub expired : Throttle → Attempts → ℕ → Bool
expired t e now = leb t.window 0 || leb (e.first + t.window) now

-- the last lines of `Allow` and of `Failed`
pub remaining : Throttle → Attempts → ℕ → ℕ
remaining t e now = let left = e.first + t.window - now in if ltb left second then second else left

unfoldable pub count_verdict : Throttle → Attempts → ℕ → Verdict
count_verdict t e now =
    if ltb e.count t.max
    then allowed
    else record { locked = true; retry_after = round_second (remaining t e now) }

unfoldable pub allow : Throttle → Text → ℕ → Verdict
unfolding expired
allow t user now = if leb t.max 0 then allowed else elim (lookup (throttle_key user) t.entries) [
  | none ↦ allowed
  | some e ↦ if expired t e now then allowed else count_verdict t e now
]

-- the loop of `evict`, over the table and the order
evict_from : Map Attempts → List Text → Map Attempts × List Text
evict_from entries [] = (entries, [])
evict_from entries (oldest ∷ order) = elim (leb max_throttle_keys (length entries)) [
  | true ↦ evict_from (remove oldest entries) order
  | false ↦ (entries, oldest ∷ order)
]

pub evict : Throttle → Throttle
evict t =
    let (entries, order) = evict_from t.entries t.order in
    record t { entries = entries; order = order }

abbrev fresh : ℕ → Attempts
fresh now = record { count = 0; first = now; last = 0 }

-- the `switch` of `Failed`: the table with an entry for the key, and that entry
unfoldable pub open_window : Throttle → Text → ℕ → Throttle × Attempts
unfolding expired
open_window t key now = elim (lookup key t.entries) [
  | none ↦
      let t' = evict t in
      (
        record t' { entries = insert key (fresh now) t'.entries; order = t'.order ++ key ∷ [] },
        fresh now,
      )
  | some e ↦ (t, if expired t e now then record e { count = 0; first = now } else e)
]

-- The entry is a pointer: what `Failed` counts is what the table holds.
unfoldable pub failed : Throttle → Text → ℕ → Throttle × Verdict
unfolding open_window
failed t user now =
    if leb t.max 0
    then (t, allowed)
    else let key = throttle_key user in
      let (t', e) = open_window t key now in
      let e' = record e { count = e.count + 1; last = now } in
      (record t' { entries = insert key e' t'.entries }, count_verdict t e' now)

unfoldable pub succeeded : Throttle → Text → Throttle
succeeded t user =
    let key = throttle_key user in
    elim (lookup key t.entries) [
      | none ↦ t
      | some e ↦ record t { entries = remove key t.entries; order = without_first key t.order }
    ]

pub tracked : Throttle → ℕ
tracked t = length t.entries
