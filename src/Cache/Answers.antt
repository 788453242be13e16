-- ===== src/Cache/Answers.antt =====
-- Which requests a build may answer (cache.go, the forced-request rule and `probeSuits`).
use labview.Common.{
  ℕ, ◌+◌, ◌≤◌, ◌≡◌, refl, Bool, true, false, ◌||◌, ◌⊎◌, inl, inr, Bool-cases, Option-cases, List,
  [], ◌∷◌, Option, none, some, arith, All, All-append, All-imp,
}
use labview.Cache.{
  Cache, Request, Build, Finished, Notice, probe_suits, join, join_queued, may_join, own_build,
  next_build, rest_of, start, fresh, answer_held, answer_running, get, finish_build, finish,
  deliver,
}
use labview.Cache.World.{World, Step, ask, ends, tells, ticks, Reach, here, next, begin}

-- A build ran with the override that a request asked for, and if the request was forced, started
-- no earlier than it arrived.
pub record MayAnswer (b : Build) (r : Request) : Type 0 where
  pub suits : probe_suits r.probe b.probe ≡ true
  pub late : (r.forced ≡ false) ⊎ (r.arrived ≤ b.started_at)

abbrev pub any_forced : List Request → Bool
any_forced [] = false
any_forced (r ∷ rs) = r.forced || any_forced rs

pub record IsServed (b : Build) : Type 0 where
  pub answers : All (MayAnswer b) b.waiters
  pub flag : b.forced ≡ any_forced b.waiters

-- A build that has not started, at a time.
record WillAnswer (clock : ℕ) (b : Build) (r : Request) : Type 0 where
  suits : probe_suits r.probe b.probe ≡ true
  past : r.arrived ≤ clock

record IsQueued (clock : ℕ) (b : Build) : Type 0 where
  answers : All (WillAnswer clock b) b.waiters
  flag : b.forced ≡ any_forced b.waiters

-- Builds wait only behind a running build.
abbrev RunningIsServed : Option Build → List Build → Type 0
RunningIsServed none queued = queued ≡ []
RunningIsServed (some b) queued = IsServed b

module _ {P : Type 0} where
  record IsCoherent (clock : ℕ) (c : Cache P) : Type 0 where
    running : RunningIsServed c.running c.queued
    queued : All (IsQueued clock) c.queued
    finished : All (λ (f : Finished P). IsServed f.build) c.finished

pub probe_suits_self : (o : Option Bool) → probe_suits o o ≡ true
unfolding probe_suits
probe_suits_self none = refl
probe_suits_self (some true) = refl
probe_suits_self (some false) = refl

join_flag :
    (r : Request) (b : Build)
    → b.forced ≡ any_forced b.waiters
    → (join r b).forced ≡ any_forced (join r b).waiters
unfolding join
join_flag r b e = ground arith

join-IsServed : (r : Request) (b : Build) → may_join r b ≡ true → IsServed b → IsServed (join r b)
unfolding may_join join
join-IsServed r b m s = record {
  answers = (
    record { suits = ground arith; late = ground arith },
    All-imp b.waiters (λ q a. record { suits = a.suits; late = a.late }) s.answers,
  );
  flag = join_flag r b s.flag;
}

join-IsQueued :
    (clock : ℕ) (r : Request) (b : Build)
    → probe_suits r.probe b.probe ≡ true
    → r.arrived ≤ clock
    → IsQueued clock b
    → IsQueued clock (join r b)
unfolding join
join-IsQueued clock r b m h s = record {
  answers = (
    record { suits = m; past = h },
    All-imp b.waiters (λ q a. record { suits = a.suits; past = a.past }) s.answers,
  );
  flag = join_flag r b s.flag;
}

join_queued-IsQueued :
    (clock : ℕ) (r : Request) (bs bs' : List Build)
    → join_queued r bs ≡ some bs'
    → r.arrived ≤ clock
    → All (IsQueued clock) bs
    → All (IsQueued clock) bs'
unfolding join_queued
join_queued-IsQueued clock r [] bs' e h s = absurd (ground arith)
join_queued-IsQueued clock r (b ∷ bs) bs' e h s = elim (Bool-cases (probe_suits r.probe b.probe)) [
  | inl fits ↦
      let e' : join r b ∷ bs ≡ bs' = ground arith in
      rw (← e') (join-IsQueued clock r b fits h s.0, s.1)
  | inr other ↦ elim (Option-cases (join_queued r bs)) [
    | inl f ↦ absurd (ground arith)
    | inr (cs, f) ↦
        let e' : b ∷ cs ≡ bs' = ground arith in
        rw (← e') (s.0, join_queued-IsQueued clock r bs cs f h s.1)
  ]
]

-- The clock only moves a queued build's requests further into the past.
IsQueued-later : (clock d : ℕ) (b : Build) → IsQueued clock b → IsQueued (clock + d) b
IsQueued-later clock d b s = record {
  answers =
      All-imp b.waiters (λ q a. record { suits = a.suits; past = omega (arith, a.past) }) s.answers;
  flag = s.flag;
}

own_build-IsQueued : (clock : ℕ) (r : Request) → r.arrived ≤ clock → IsQueued clock (own_build r)
own_build-IsQueued clock r h = record {
  answers = (record { suits = probe_suits_self r.probe; past = h }, tt);
  flag = ground arith;
}

-- A queued build that starts now starts no earlier than its requests arrived.
started-IsServed :
    (clock : ℕ) (b : Build) → IsQueued clock b → IsServed (record b { started_at = clock })
started-IsServed clock b s = record {
  answers = All-imp b.waiters (λ q a. record { suits = a.suits; late = inr a.past }) s.answers;
  flag = s.flag;
}

next_build-IsServed :
    (clock : ℕ) (bs : List Build)
    → All (IsQueued clock) bs
    → RunningIsServed (next_build clock bs) (rest_of bs)
unfolding next_build
next_build-IsServed clock [] q = refl
next_build-IsServed clock (b ∷ bs) q = started-IsServed clock b q.0

rest_of-IsQueued :
    (clock : ℕ) (bs : List Build) → All (IsQueued clock) bs → All (IsQueued clock) (rest_of bs)
rest_of-IsQueued clock [] q = tt
rest_of-IsQueued clock (b ∷ bs) q = q.1

joined-RunningIsServed :
    (r : Request) (o : Option Build) (bs bs' : List Build)
    → join_queued r bs ≡ some bs'
    → RunningIsServed o bs
    → RunningIsServed o bs'
unfolding join_queued
joined-RunningIsServed r none bs bs' e k = let f = rw k at e in let g : none ≡ some bs' = f in cc
joined-RunningIsServed r (some b) bs bs' e k = k

module _ {P : Type 0} where
  start-IsCoherent :
      (clock : ℕ) (c : Cache P) (r : Request)
      → r.arrived ≤ clock
      → IsCoherent clock c
      → IsCoherent clock (start c r)
  unfolding start
  start-IsCoherent clock c r h k = elim (Option-cases c.running) [
    | inl idle ↦
        rw (idle, start)
          (record {
            running = record {
              answers = (record { suits = probe_suits_self r.probe; late = inr (omega arith) }, tt);
              flag = ground arith;
            };
            queued = k.queued;
            finished = k.finished;
          })
    | inr (b, busy) ↦
        rw (busy, start)
          (record {
            running = rw busy (rw busy at k.running);
            queued =
                All-append (IsQueued clock) c.queued (own_build r ∷ []) k.queued
                  (own_build-IsQueued clock r h, tt);
            finished = k.finished;
          })
  ]

  -- A request that finds no build to join is answered at once, or gets a build.
  answer_held_cases :
      (c : Cache P) (r : Request) → ((answer_held c r).0 ≡ c) ⊎ ((answer_held c r).0 ≡ start c r)
  unfolding answer_held
  answer_held_cases c r = elim (Bool-cases r.forced) [
    | inl forced ↦ inr (ground arith)
    | inr idle ↦ elim (Option-cases (fresh c r.arrived)) [
      | inl e ↦ inr (ground arith)
      | inr (p, e) ↦ elim (Bool-cases (probe_suits r.probe c.probe)) [
        | inl fits ↦ inl (ground arith)
        | inr other ↦ inr (ground arith)
      ]
    ]
  ]

  answer_held-IsCoherent :
      (clock : ℕ) (c : Cache P) (r : Request)
      → r.arrived ≤ clock
      → IsCoherent clock c
      → IsCoherent clock (answer_held c r).0
  unfolding answer_held
  answer_held-IsCoherent clock c r h k = elim (answer_held_cases c r) [
    | inl e ↦ rw e k
    | inr e ↦ rw e (start-IsCoherent clock c r h k)
  ]

  answer_running-IsCoherent :
      (clock : ℕ) (c : Cache P) (r : Request) (o : Option Build)
      → c.running ≡ o
      → r.arrived ≤ clock
      → IsCoherent clock c
      → IsCoherent clock (answer_running c r o).0
  unfolding answer_running
  answer_running-IsCoherent clock c r none e h k = answer_held-IsCoherent clock c r h k
  answer_running-IsCoherent clock c r (some b) e h k = elim (Bool-cases (may_join r b)) [
    | inl joins ↦
        rw (joins, answer_running)
          (record {
            running = join-IsServed r b joins (rw e at k.running);
            queued = k.queued;
            finished = k.finished;
          })
    | inr waits ↦ rw (waits, answer_running) (answer_held-IsCoherent clock c r h k)
  ]

  get-IsCoherent :
      (clock : ℕ) (c : Cache P) (r : Request)
      → r.arrived ≤ clock
      → IsCoherent clock c
      → IsCoherent clock (get c r).0
  unfolding get
  get-IsCoherent clock c r h k = elim (Option-cases (join_queued r c.queued)) [
    | inl e ↦ rw (e, get) (answer_running-IsCoherent clock c r c.running refl h k)
    | inr (bs, e) ↦
        rw (e, get)
          (record {
            running = joined-RunningIsServed r c.running c.queued bs e k.running;
            queued = join_queued-IsQueued clock r c.queued bs e h k.queued;
            finished = k.finished;
          })
  ]

  finish-IsCoherent :
      (clock : ℕ) (c : Cache P) (out : P)
      → IsCoherent clock c
      → IsCoherent clock (finish c out clock)
  unfolding finish finish_build
  finish-IsCoherent clock c out k = elim (Option-cases c.running) [
    | inl idle ↦ rw (idle, finish) k
    | inr (b, busy) ↦
        rw (busy, finish)
          (record {
            running = next_build-IsServed clock c.queued k.queued;
            queued = rest_of-IsQueued clock c.queued k.queued;
            finished =
                All-append (λ (f : Finished P). IsServed f.build) c.finished _ k.finished
                  (rw busy at k.running, tt);
          })
  ]

  deliver-IsCoherent :
      (clock : ℕ) (c : Cache P) → IsCoherent clock c → IsCoherent clock (deliver c).0
  unfolding deliver
  deliver-IsCoherent clock c k = go c.pending refl
    where
      go : (ns : List (Notice P)) → c.pending ≡ ns → IsCoherent clock (deliver c).0
      go [] e = rw (e, deliver) k
      go (n ∷ rest) e =
          rw (e, deliver) (record { running = k.running; queued = k.queued; finished = k.finished })

  Step-IsCoherent :
      {v w : World P} → Step v w → IsCoherent v.clock v.cache → IsCoherent w.clock w.cache
  Step-IsCoherent (ask w r h) k = get-IsCoherent w.clock w.cache r h k
  Step-IsCoherent (ends w out) k = finish-IsCoherent w.clock w.cache out k
  Step-IsCoherent (tells w) k = deliver-IsCoherent w.clock w.cache k
  Step-IsCoherent (ticks w d) k = record {
    running = k.running;
    queued = All-imp w.cache.queued (λ b q. IsQueued-later w.clock d b q) k.queued;
    finished = k.finished;
  }

  Reach-IsCoherent :
      {v w : World P} → IsCoherent v.clock v.cache → Reach v w → IsCoherent w.clock w.cache
  Reach-IsCoherent k here = k
  Reach-IsCoherent k (next r st) = Step-IsCoherent st (Reach-IsCoherent k r)

  -- Whatever requests, ends of builds, notices and ticks of the clock came before, in any order:
  -- every build that has finished ran with the probe override that each of its waiting requests
  -- asked for, started no earlier than each forced one of them arrived, and counts as forced exactly
  -- if one of them was.
  pub forced_rule :
      (ttl : ℕ) (listening : Bool) (clock : ℕ) {w : World P}
      → Reach (begin ttl listening clock) w
      → All (λ (f : Finished P). IsServed f.build) w.cache.finished
  forced_rule ttl listening clock r =
      let k = Reach-IsCoherent (record { running = refl; queued = tt; finished = tt }) r in
      k.finished
