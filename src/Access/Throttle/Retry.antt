-- ===== src/Access/Throttle/Retry.antt =====
-- The Retry-After that a locked name is told (throttle.go, the last lines of `Allow`).
use labview.Common.{ℕ, ◌+◌, ◌-◌, ◌%◌, ◌≤◌, ◌<◌, ◌≡◌, true, inl, inr, Option-cases, some, arith}
use labview.Common.Text.{Text}
use labview.Common.Map.{lookup}
use labview.Access.Username.{throttle_key}
use labview.Access.Throttle.{
  Throttle, Attempts, second, allow, remaining, round_second, count_verdict,
}

round_second_lem : (d : ℕ) → second ≤ d → (second ≤ round_second d) × (round_second d % second ≡ 0)
unfolding round_second
round_second_lem d h = (ground arith, ground arith)

remaining-ge : (t : Throttle) (e : Attempts) (now : ℕ) → second ≤ remaining t e now
unfolding remaining
remaining-ge t e now = ground arith

count_verdict_retry :
    (t : Throttle) (e : Attempts) (now : ℕ)
    → (count_verdict t e now).locked ≡ true
    → (second ≤ (count_verdict t e now).retry_after)
      × ((count_verdict t e now).retry_after % second ≡ 0)
unfolding count_verdict
count_verdict_retry t e now h =
    ground (arith, round_second_lem (remaining t e now) (remaining-ge t e now))

-- A locked name is told a whole number of seconds, and at least one.
pub retry_whole_seconds :
    (t : Throttle) (user : Text) (now : ℕ)
    → (allow t user now).locked ≡ true
    → (second ≤ (allow t user now).retry_after) × ((allow t user now).retry_after % second ≡ 0)
unfolding allow
retry_whole_seconds t user now h = elim (Option-cases (lookup (throttle_key user) t.entries)) [
  | inl e ↦ ground arith
  | inr (e, k) ↦ ground (arith, count_verdict_retry t e now)
]

-- What a lock says of the record and of the settings.
allow_locked :
    (t : Throttle) (user : Text) (e : Attempts) (now : ℕ)
    → lookup (throttle_key user) t.entries ≡ some e
    → (allow t user now).locked ≡ true
    → second ≤ e.first + t.window - now
    → ((allow t user now).retry_after ≡ round_second (e.first + t.window - now))
      × (0 < t.max)
      × (t.max ≤ e.count)
      × (0 < t.window)
unfolding allow count_verdict remaining
allow_locked t user e now k h big = (ground arith, ground arith, ground arith, ground arith)

allow_early :
    (t : Throttle) (user : Text) (e : Attempts) (now : ℕ)
    → lookup (throttle_key user) t.entries ≡ some e
    → 0 < t.max
    → t.max ≤ e.count
    → 0 < t.window
    → now < e.first + t.window
    → (allow t user now).locked ≡ true
unfolding allow count_verdict
allow_early t user e now k on counted window early = ground arith

round_second-down : (d : ℕ) → d % second + d % second < second → round_second d + d % second ≡ d
unfolding round_second
round_second-down d h = ground arith

-- The seconds are rounded to the nearest, not up: where what remains of the lock is more than a
-- second, and is over a whole number of seconds by less than half of one, a name that comes back
-- exactly when it was told to is locked still.
pub retry_too_soon :
    (t : Throttle) (user : Text) (e : Attempts) (now : ℕ)
    → lookup (throttle_key user) t.entries ≡ some e
    → (allow t user now).locked ≡ true
    → second ≤ e.first + t.window - now
    → 0 < (e.first + t.window - now) % second
    → (e.first + t.window - now) % second + (e.first + t.window - now) % second < second
    → (allow t user (now + (allow t user now).retry_after)).locked ≡ true
retry_too_soon t user e now k h big over under =
    let (r, on, counted, window) = allow_locked t user e now k h big in
    rw r (
      allow_early t user e _ k on counted window
        (ground (arith, round_second-down (e.first + t.window - now) under)))
