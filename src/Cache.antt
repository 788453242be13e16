-- ===== src/Cache.antt =====
-- internal/cache/cache.go: one scan shared by every reader.
--
-- Each critical section under `mu` is one function on the state: `get` for `Get`, `finish` for the
-- middle of `drain`, `deliver` for one round of `flush`. A build is one record, held in the place
-- that the pointer is reached from; with it stand the requests that wait for its `done` channel,
-- which Go holds as blocked goroutines. `P` is the payload; what a scan returns is an argument of
-- `finish`. Times are nanoseconds from a moment before every time that occurs.
pub mod World
pub mod Answers
pub mod Notices
pub mod Progress
pub mod Sharing
mod Tests
use labview.Common.{
  ℕ, zero, ◌+◌, ◌<◌, Bool, true, false, ◌&&◌, ◌||◌, not, List, [], ◌∷◌, ◌++◌, Option, none, some,
  leb, ltb, if◌then◌else◌,
}

-- A probe override, `*bool`.
abbrev pub Override : Type 0
Override = Option Bool

pub record Request : Type 0 where
  pub arrived : ℕ
  pub forced : Bool
  pub probe : Override

pub record Build : Type 0 where
  pub started_at : ℕ
  pub forced : Bool
  pub probe : Override
  pub waiters : List Request

pub record Notice (P : Type 0) : Type 0 where
  pub previous : Option P
  pub current : P
  pub forced : Bool

-- A build whose `done` channel is closed, and what it answers.
pub record Finished (P : Type 0) : Type 0 where
  pub build : Build
  pub result : P

pub record Cache (P : Type 0) : Type 0 where
  pub ttl : ℕ
  pub listening : Bool
  pub current : Option P
  pub at : ℕ
  pub probe : Override
  pub running : Option Build
  pub queued : List Build
  pub pending : List (Notice P)
  pub finished : List (Finished P)

pub data Reply (P : Type 0) : Type 0 where
  held : P → Reply P
  waiting : Reply P

unfoldable pub same_bool : Bool → Bool → Bool
same_bool true b = b
same_bool false b = not b

unfoldable pub probe_suits : Override → Override → Bool
unfolding same_bool
probe_suits none has = true
probe_suits (some want) none = false
probe_suits (some want) (some has) = same_bool want has

-- `if forced { b.forced = true }`, and wait for it
pub join : Request → Build → Build
join r b = record b { forced = if r.forced then true else b.forced; waiters = r ∷ b.waiters }

-- the loop over `c.queued`
pub join_queued : Request → List Build → Option (List Build)
join_queued r [] = none
join_queued r (b ∷ bs) =
    if not (probe_suits r.probe b.probe)
    then elim (join_queued r bs) [ none ↦ none | some bs' ↦ some (b ∷ bs') ]
    else some (join r b ∷ bs)

-- whether a request may be answered by the running build
pub may_join : Request → Build → Bool
may_join r b = probe_suits r.probe b.probe && (not r.forced || not (ltb b.started_at r.arrived))

-- the next build, started at the time at which the one before it ended
pub next_build : ℕ → List Build → Option Build
next_build now [] = none
next_build now (b ∷ bs) = some (record b { started_at = now })

abbrev pub rest_of : List Build → List Build
rest_of [] = []
rest_of (b ∷ bs) = bs

abbrev pub own_build : Request → Build
own_build r = record { started_at = 0; forced = r.forced; probe = r.probe; waiters = r ∷ [] }

module _ {P : Type 0} where
  abbrev pub new : ℕ → Bool → Cache P
  new ttl listening = record {
    ttl = ttl;
    listening = listening;
    current = none;
    at = 0;
    probe = none;
    running = none;
    queued = [];
    pending = [];
    finished = [];
  }

  pub fresh : Cache P → ℕ → Option P
  fresh c arrived = elim c.current [
    | none ↦ none
    | some p ↦ if ltb 0 c.ttl && ltb arrived (c.at + c.ttl) then some p else none
  ]

  -- the end of `Get`: a build of the request's own
  pub start : Cache P → Request → Cache P
  start c r = elim c.running [
    | some running ↦ record c { queued = c.queued ++ own_build r ∷ [] }
    | none ↦ record c { running = some (record (own_build r) { started_at = r.arrived }) }
  ]

  pub answer_held : Cache P → Request → Cache P × Reply P
  unfolding fresh start
  answer_held c r = if r.forced then (start c r, waiting) else elim (fresh c r.arrived) [
    | none ↦ (start c r, waiting)
    | some p ↦ if probe_suits r.probe c.probe then (c, held p) else (start c r, waiting)
  ]

  pub answer_running : Cache P → Request → Option Build → Cache P × Reply P
  unfolding may_join
  answer_running c r none = answer_held c r
  answer_running c r (some b) =
      if may_join r b then (record c { running = some (join r b) }, waiting) else answer_held c r

  pub get : Cache P → Request → Cache P × Reply P
  get c r = elim (join_queued r c.queued) [
    | some queued ↦ (record c { queued = queued }, waiting)
    | none ↦ answer_running c r c.running
  ]

  -- the critical section of `drain`, for the running build `b` and what it returned
  pub finish_build : Cache P → Build → P → ℕ → Cache P
  unfolding next_build
  finish_build c b out now = record c {
    current = some out;
    at = b.started_at;
    probe = b.probe;
    pending =
        if c.listening
        then c.pending ++ record { previous = c.current; current = out; forced = b.forced } ∷ []
        else c.pending;
    running = next_build now c.queued;
    queued = rest_of c.queued;
    finished = c.finished ++ record { build = b; result = out } ∷ [];
  }

  pub finish : Cache P → P → ℕ → Cache P
  unfolding finish_build
  finish c out now = elim c.running [ none ↦ c | some b ↦ finish_build c b out now ]

  -- one round of `flush`: the oldest notice goes to the listener
  pub deliver : Cache P → Cache P × Option (Notice P)
  deliver c = elim c.pending [ [] ↦ (c, none) | n ∷ rest ↦ (record c { pending = rest }, some n) ]

  -- `Peek`
  pub peek : Cache P → Option P
  peek c = c.current

  -- `wait`, for a caller whose context ends first: what is held, or the empty payload
  pub wait_cancelled : P → Cache P → P
  unfolding peek
  wait_cancelled empty c = elim (peek c) [ none ↦ empty | some p ↦ p ]
