-- ===== src/Access/Throttle/Lock.antt =====
-- When a name is locked, for how long, and whom a failure concerns (throttle.go, `Allow`, `Failed`
-- and `Succeeded`).
use labview.Common.{
  ℕ, suc, ◌↔◌, ◌+◌, ◌≤◌, ◌<◌, ◌≡◌, ◌≢◌, ◌||◌, refl, ap, ◌∙◌, true, false, Bool-cases, Option-cases,
  inl, inr, List, [], ◌∷◌, Option, none, some, arith, leb, if◌then◌else◌, length, All,
}
use labview.Common.Text.{Text, text_eq_iff, text_eq_refl}
use labview.Common.Map.{lookup, lookup-insert, lookup-insert_self, lookup-remove}
use labview.Access.Username.{throttle_key}
use labview.Access.Throttle.{
  Throttle, Attempts, max_throttle_keys, allowed, allow, evict, open_window, failed, succeeded,
  remaining, count_verdict, fresh,
}
use labview.Access.Throttle.Table.{evict-below}

-- What one more failure makes of a name's record.
abbrev one_more : Throttle → Option Attempts → ℕ → Attempts
one_more t none now = record { count = 1; first = now; last = now }
one_more t (some e) now =
    if leb t.window 0 || leb (e.first + t.window) now
    then record { count = 1; first = now; last = now }
    else record { count = e.count + 1; first = e.first; last = now }

abbrev pub record_of : Throttle → Text → Option Attempts
record_of t user = lookup (throttle_key user) t.entries

abbrev counted : Attempts → ℕ → Attempts
counted e now = record e { count = e.count + 1; last = now }

open_window_lem :
    (t : Throttle) (key : Text) (now : ℕ)
    → counted (open_window t key now).1 now ≡ one_more t (lookup key t.entries) now
unfolding open_window
open_window_lem t key now = elim (Option-cases (lookup key t.entries)) [
  | inl h ↦ rw (h, open_window) (ground arith)
  | inr (e, h) ↦ rw (h, open_window) (ground arith)
]

module _ (t : Throttle) (user : Text) (now : ℕ) (on : leb t.max 0 ≡ false) where
  failed_lem :
      (record_of (failed t user now).0 user ≡ some (one_more t (record_of t user) now))
      × ((failed t user now).1 ≡ count_verdict t (one_more t (record_of t user) now) now)
  unfolding failed
  failed_lem =
      let e = open_window_lem t (throttle_key user) now in
      rw (on, failed, lookup-insert_self) (ap some e, ap (λ e. count_verdict t e now) e)

-- The settings stay.
open_window_settings :
    (t : Throttle) (key : Text) (now : ℕ)
    → ((open_window t key now).0.max ≡ t.max) × ((open_window t key now).0.window ≡ t.window)
unfolding open_window evict
open_window_settings t key now = ground arith

pub failed_settings :
    (t : Throttle) (user : Text) (now : ℕ)
    → ((failed t user now).0.max ≡ t.max) × ((failed t user now).0.window ≡ t.window)
unfolding failed
failed_settings t user now = ground (arith, open_window_settings t (throttle_key user) now)

-- The answer for a name whose record is known.
allow_known :
    (t : Throttle) (user : Text) (now : ℕ) (e : Attempts)
    → leb t.max 0 ≡ false
    → record_of t user ≡ some e
    → allow t user now
      ≡ (if leb t.window 0 || leb (e.first + t.window) now then allowed else count_verdict t e now)
unfolding allow
allow_known t user now e on h = rw (on, h, allow)

allow_off : (t : Throttle) (user : Text) (now : ℕ) → leb t.max 0 ≡ true → allow t user now ≡ allowed
unfolding allow
allow_off t user now off = rw off

failed_off :
    (t : Throttle) (user : Text) (now : ℕ) → leb t.max 0 ≡ true → failed t user now ≡ (t, allowed)
unfolding failed
failed_off t user now off = rw off

-- The verdict on a record reads the settings alone.
count_verdict_settings :
    (t u : Throttle) (e : Attempts) (now : ℕ)
    → t.max ≡ u.max
    → t.window ≡ u.window
    → count_verdict t e now ≡ count_verdict u e now
unfolding count_verdict remaining
count_verdict_settings t u e now p q = rw (p, q)

one_more_open :
    (t : Throttle) (o : Option Attempts) (now : ℕ)
    → 0 < t.window
    → (leb t.window 0 || leb ((one_more t o now).first + t.window) now) ≡ false
one_more_open t none now w = ground arith
one_more_open t (some e) now w = ground arith

-- What `Failed` answers, a check at the same instant answers too, where there is a window.
pub failed-allow :
    (t : Throttle) (user : Text) (now : ℕ)
    → 0 < t.window
    → allow (failed t user now).0 user now ≡ (failed t user now).1
failed-allow t user now w = elim (Bool-cases (leb t.max 0)) [
  | inl off ↦ rw (failed_off t user now off) (allow_off t user now off)
  | inr on ↦
      let (entry, verdict) = failed_lem t user now on in
      let (most, window) = failed_settings t user now in
      let o = record_of t user in
      rw
        (
          verdict,
          allow_known (failed t user now).0 user now (one_more t o now) (rw most on) entry,
          window,
          one_more_open t o now w,
        )
        (count_verdict_settings (failed t user now).0 t (one_more t o now) now most window)
]

-- A row of failures of one name.
abbrev pub fail_all : Throttle → Text → List ℕ → Throttle
fail_all t user [] = t
fail_all t user (now ∷ times) = fail_all (failed t user now).0 user times

abbrev last_or : ℕ → List ℕ → ℕ
last_or d [] = d
last_or d (x ∷ xs) = last_or x xs

-- Failures inside an open window count up, and leave its start alone.
fail_all_lem :
    (t : Throttle) (user : Text) (times : List ℕ) (e : Attempts)
    → leb t.max 0 ≡ false
    → 0 < t.window
    → record_of t user ≡ some e
    → All (λ now. now < e.first + t.window) times
    → (record_of (fail_all t user times) user
        ≡ some (record {
          count = e.count + length times;
          first = e.first;
          last = last_or e.last times;
        }))
      × ((fail_all t user times).max ≡ t.max)
      × ((fail_all t user times).window ≡ t.window)
fail_all_lem t user [] e on w h inside = (rw h (ground arith), refl, refl)
fail_all_lem t user (now ∷ times) e on w h inside =
    let (entry, _) = failed_lem t user now on in
    let (most, window) = failed_settings t user now in
    let e' : Attempts = record { count = e.count + 1; first = e.first; last = now } in
    let entry' : record_of (failed t user now).0 user ≡ some e' = entry ∙ rw h (ground arith) in
    let (r, m, k) =
      fail_all_lem (failed t user now).0 user times e' (rw most on) (rw window w) entry'
        (rw window inside.1) in
    (rw r (ground arith), m ∙ most, k ∙ window)

-- The start of a window: the name is not counted, or its window has closed.
abbrev pub IsClosed : Throttle → Option Attempts → ℕ → Type 0
IsClosed t none now = Unit
IsClosed t (some e) now = e.first + t.window ≤ now

one_more_closed :
    (t : Throttle) (o : Option Attempts) (now : ℕ)
    → IsClosed t o now
    → one_more t o now ≡ record { count = 1; first = now; last = now }
one_more_closed t none now h = refl
one_more_closed t (some e) now h = ground arith

verdict_iff :
    (t u : Throttle) (e : Attempts) (n now : ℕ)
    → 0 < t.window
    → u.max ≡ t.max
    → e.count ≡ n
    → ((if leb t.window 0 || leb (e.first + t.window) now
          then allowed
          else count_verdict u e now).locked
        ≡ true)
      ↔ ((t.max ≤ n) × (now < e.first + t.window))
unfolding count_verdict
verdict_iff t u e n now w m c = (λ h. (ground arith, ground arith), λ h. ground arith)

-- A name that is not counted, or whose window has closed, fails once at `start` and then at `times`
-- before the window closes. From there on a check finds the name locked exactly if there were `max`
-- failures and the window of the first is still open: further failures do not move the lock's end.
-- The throttle has to be on, with a window.
pub lock_lem :
    (t : Throttle) (user : Text) (start : ℕ) (times : List ℕ) (now : ℕ)
    → 0 < t.max
    → 0 < t.window
    → IsClosed t (record_of t user) start
    → All (λ time. time < start + t.window) times
    → ((allow (fail_all t user (start ∷ times)) user now).locked ≡ true)
      ↔ ((t.max ≤ suc (length times)) × (now < start + t.window))
unfolding count_verdict
lock_lem t user start times now on w closed inside =
    let off : leb t.max 0 ≡ false = ground arith in
    let (entry, _) = failed_lem t user start off in
    let (most, window) = failed_settings t user start in
    let e : Attempts = record { count = 1; first = start; last = start } in
    let entry' : record_of (failed t user start).0 user ≡ some e =
      entry ∙ ap some (one_more_closed t (record_of t user) start closed) in
    let (r, m, k) =
      fail_all_lem (failed t user start).0 user times e (rw most off) (rw window w) entry'
        (rw window inside) in
    let u = fail_all (failed t user start).0 user times in
    let e' : Attempts = record {
      count = 1 + length times;
      first = start;
      last = last_or start times;
    } in
    let m' : u.max ≡ t.max = m ∙ most in
    let k' : u.window ≡ t.window = k ∙ window in
    rw (allow_known u user now e' (rw m' off) r, k')
      (verdict_iff t u e' (suc (length times)) now w m' (omega arith))

-- A check looks at one record and at the settings.
allow-congr :
    (t u : Throttle) (user : Text) (now : ℕ)
    → u.max ≡ t.max
    → u.window ≡ t.window
    → record_of u user ≡ record_of t user
    → allow u user now ≡ allow t user now
unfolding allow count_verdict remaining
allow-congr t u user now m w r = ground arith

open_window-other :
    (t : Throttle) (key other : Text) (now : ℕ)
    → key ≢ other
    → length t.entries < max_throttle_keys
    → lookup other (open_window t key now).0.entries ≡ lookup other t.entries
unfolding open_window
open_window-other t key other now ne room = ground (
  arith,
  evict-below t room,
  lookup-insert key other (fresh now) t.entries,
  text_eq_iff key other,
)

-- A name is unlocked by its own success, at once.
pub succeeded-allow :
    (t : Throttle) (user : Text) (now : ℕ) → allow (succeeded t user) user now ≡ allowed
unfolding allow succeeded
succeeded-allow t user now = ground (
  arith,
  lookup-remove (throttle_key user) (throttle_key user) t.entries,
  text_eq_refl (throttle_key user),
)

-- While the table has room for one more name, a failure or a success of one name changes no answer
-- about a name with another key.
pub other_name_lem :
    (t : Throttle) (user other : Text) (now later : ℕ)
    → throttle_key user ≢ throttle_key other
    → length t.entries < max_throttle_keys
    → (allow (failed t user now).0 other later ≡ allow t other later)
      × (allow (succeeded t user) other later ≡ allow t other later)
unfolding failed succeeded
other_name_lem t user other now later ne room = (
  allow-congr t (failed t user now).0 other later (failed_settings t user now).0
      (failed_settings t user now).1
      (ground (
        arith,
        open_window-other t (throttle_key user) (throttle_key other) now ne room,
        text_eq_iff (throttle_key user) (throttle_key other),
        lookup-insert (throttle_key user) (throttle_key other)
            (counted (open_window t (throttle_key user) now).1 now)
            (open_window t (throttle_key user) now).0.entries,
      )),
  allow-congr t (succeeded t user) other later (ground arith) (ground arith) (
      ground (
        arith,
        text_eq_iff (throttle_key user) (throttle_key other),
        lookup-remove (throttle_key user) (throttle_key other) t.entries,
      )),
)
