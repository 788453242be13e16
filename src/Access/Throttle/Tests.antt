-- ===== src/Access/Throttle/Tests.antt =====
-- Runs of the throttle, and its theorems at inputs that meet their hypotheses.
use labview.Common.{◌+◌, ◌*◌, ◌≤◌, ◌<◌, ◌≡◌, ◌≢◌, ◌↔◌, refl, ap, true, List, [], ◌∷◌, arith}
use labview.Common.Text.{Text, codes, text_eq, text_eq_iff, to_lower}
use labview.Common.Map.{lookup, insert}
use labview.Access.Username.{throttle_key, username, valid_username, username_bytes, username_byte}
use labview.Access.Throttle.{
  Throttle, new, second, allowed, allow, failed, succeeded, tracked, max_throttle_keys,
  count_verdict, remaining, round_second, evict, evict_from,
}
use labview.Access.Throttle.Table.{Attempt, fails, succeeds, run, IsSynced, run_bounded}
use labview.Access.Throttle.Lock.{lock_lem, other_name_lem, fail_all, succeeded-allow}
use labview.Access.Throttle.Retry.{retry_too_soon}

abbrev bob : Text
bob = codes "Bob"

abbrev eve : Text
eve = codes "eve"

-- Two failures within a minute lock a name.
abbrev strict : Throttle
strict = new 2 (60 * second)

abbrev locked_bob : Throttle
locked_bob = record strict {
  entries = (codes "bob", record { count = 2; first = 0; last = 5 }) ∷ [];
  order = codes "bob" ∷ [];
}

bob_key : throttle_key bob ≡ codes "bob"
unfolding throttle_key username valid_username username_bytes username_byte to_lower
bob_key = refl

hostile_key : throttle_key (codes "a\nb") ≡ codes "?"
unfolding throttle_key username valid_username username_bytes username_byte to_lower
hostile_key = refl

not-same_key : throttle_key bob ≢ throttle_key eve
unfolding throttle_key username valid_username username_bytes username_byte to_lower text_eq
not-same_key e = let f = (text_eq_iff (throttle_key bob) (throttle_key eve)).1 e in cc

locks_bob :
    (failed (failed strict bob 0).0 bob 5).1 ≡ record { locked = true; retry_after = 60 * second }
unfolding failed throttle_key username valid_username username_bytes username_byte to_lower lookup
    insert evict evict_from count_verdict remaining round_second text_eq
locks_bob = refl

abbrev some_attempts : List Attempt
some_attempts = fails bob 0 ∷ fails eve 3 ∷ succeeds bob ∷ fails bob 7 ∷ []

run_bounded_example :
    IsSynced (run (new 2 second) some_attempts)
    × (tracked (run (new 2 second) some_attempts) ≤ max_throttle_keys)
run_bounded_example = run_bounded 2 second some_attempts

lock_lem_example :
    ((allow (fail_all strict bob (100 ∷ 200 ∷ [])) bob 300).locked ≡ true)
    ↔ ((2 ≤ 2) × (300 < 100 + 60 * second))
unfolding lookup
lock_lem_example =
    lock_lem strict bob 100 (200 ∷ []) 300 (omega arith) (omega arith) tt (omega arith)

succeeded-opens_bob : allow (succeeded locked_bob bob) bob 10 ≡ allowed
succeeded-opens_bob = succeeded-allow locked_bob bob 10

other_name_lem_example :
    (allow (failed locked_bob bob 6).0 eve 8 ≡ allow locked_bob eve 8)
    × (allow (succeeded locked_bob bob) eve 8 ≡ allow locked_bob eve 8)
other_name_lem_example = other_name_lem locked_bob bob eve 6 8 not-same_key (omega arith)

is_locked : allow locked_bob bob 700_000_000 ≡ record { locked = true; retry_after = 59 * second }
unfolding allow lookup throttle_key username valid_username username_bytes username_byte to_lower
    text_eq count_verdict remaining round_second
is_locked = refl

-- The lock ends after 60 seconds; told 59 seconds at 0.7 seconds, a name comes back at 59.7.
retry_too_soon_example :
    (allow locked_bob bob (700_000_000 + (allow locked_bob bob 700_000_000).retry_after)).locked
    ≡ true
unfolding lookup throttle_key username valid_username username_bytes username_byte to_lower text_eq
retry_too_soon_example =
    retry_too_soon locked_bob bob (record { count = 2; first = 0; last = 5 }) 700_000_000 refl
      (ap (λ v. v.locked) is_locked) (omega arith) (omega arith) (omega arith)
