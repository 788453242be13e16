-- ===== src/Cache/Sharing.antt =====
-- That requests which may share a build do (cache.go, `Get`).
use labview.Common.{
  ◌≤◌, ◌≡◌, refl, true, ◌⊎◌, inl, inr, Bool-cases, Option-cases, List, [], ◌∷◌, ◌++◌, Option, none,
  some, arith,
}
use labview.Cache.{
  Cache, Request, Build, waiting, probe_suits, join, join_queued, may_join, own_build, start,
  answer_held, answer_running, get,
}
use labview.Cache.Answers.{probe_suits_self}
use labview.Cache.Progress.{builds, asked-join_queued}

-- A request of the same kind that reads the clock no later.
pub record Beside (r s : Request) : Type 0 where
  pub forced : s.forced ≡ r.forced
  pub probe : s.probe ≡ r.probe
  pub arrived : s.arrived ≤ r.arrived

-- A queue holds a build for a request.
abbrev HasRoom : Request → List Build → Type 0
HasRoom r [] = ⊥
HasRoom r (b ∷ bs) = (probe_suits r.probe b.probe ≡ true) ⊎ HasRoom r bs

HasRoom-joins :
    (r : Request) (bs : List Build)
    → HasRoom r bs
    → (bs' : List Build) × (join_queued r bs ≡ some bs')
unfolding join_queued
HasRoom-joins r [] h = absurd h
HasRoom-joins r (b ∷ bs) (inl e) = (join r b ∷ bs, ground arith)
HasRoom-joins r (b ∷ bs) (inr h) =
    let (cs, e) = HasRoom-joins r bs h in
    elim (Bool-cases (probe_suits r.probe b.probe)) [
      | inl fits ↦ (join r b ∷ bs, ground arith)
      | inr other ↦ (b ∷ cs, ground arith)
    ]

joined-HasRoom :
    (r s : Request)
    → Beside r s
    → (bs bs' : List Build) → join_queued r bs ≡ some bs'
    → HasRoom s bs'
unfolding join_queued join
joined-HasRoom r s k [] bs' e = absurd (ground arith)
joined-HasRoom r s k (b ∷ bs) bs' e = elim (Bool-cases (probe_suits r.probe b.probe)) [
  | inl fits ↦ let e' : join r b ∷ bs ≡ bs' = ground arith in rw (← e') (inl (rw k.probe fits))
  | inr other ↦ elim (Option-cases (join_queued r bs)) [
    | inl f ↦ absurd (ground arith)
    | inr (cs, f) ↦
        let e' : b ∷ cs ≡ bs' = ground arith in rw (← e') (inr (joined-HasRoom r s k bs cs f))
  ]
]

concat-HasRoom :
    (r : Request) (bs : List Build) (b : Build)
    → probe_suits r.probe b.probe ≡ true
    → HasRoom r (bs ++ b ∷ [])
concat-HasRoom r [] b h = inl h
concat-HasRoom r (c ∷ bs) b h = inr (concat-HasRoom r bs b h)

may_join-Beside :
    (r s : Request) (b : Build) → Beside r s → may_join r b ≡ true → may_join s (join r b) ≡ true
unfolding may_join join
may_join-Beside r s b k h = rw (k.probe, k.forced) (ground (arith, k.arrived))

-- A place for a request among the builds of a cache.
abbrev HasPlace : Request → Option Build → List Build → Type 0
HasPlace r none bs = HasRoom r bs
HasPlace r (some b) bs = HasRoom r bs ⊎ (may_join r b ≡ true)

room-HasPlace : (r : Request) (o : Option Build) (bs : List Build) → HasRoom r bs → HasPlace r o bs
room-HasPlace r none bs h = h
room-HasPlace r (some b) bs h = inl h

own-HasPlace :
    (r s : Request)
    → Beside r s
    → may_join s (record (own_build r) { started_at = r.arrived }) ≡ true
unfolding may_join probe_suits
own-HasPlace r s k = rw k.probe (ground (arith, probe_suits_self r.probe, k.arrived))

module _ {P : Type 0} where
  room-builds : (c : Cache P) (s : Request) → HasRoom s c.queued → builds (get c s).0 ≡ builds c
  unfolding get
  room-builds c s h =
      let (bs, e) = HasRoom-joins s c.queued h in
      let j = asked-join_queued s c.queued bs e in rw (e, get) (ground (arith, j.1))

  running-builds :
      (c : Cache P) (s : Request) (b : Build)
      → c.running ≡ some b
      → may_join s b ≡ true
      → builds (get c s).0 ≡ builds c
  unfolding get answer_running
  running-builds c s b busy m = elim (Option-cases (join_queued s c.queued)) [
    | inl e ↦ ground arith
    | inr (bs, e) ↦ let j = asked-join_queued s c.queued bs e in rw (e, get) (ground (arith, j.1))
  ]

  start-HasPlace :
      (c : Cache P) (r s : Request) → Beside r s → HasPlace s (start c r).running (start c r).queued
  unfolding start
  start-HasPlace c r s k = elim (Option-cases c.running) [
    | inl idle ↦ rw (idle, start) (inr (own-HasPlace r s k))
    | inr (b, busy) ↦
        rw (busy, start)
          (room-HasPlace s c.running _
            (concat-HasRoom s c.queued (own_build r) (rw k.probe (probe_suits_self r.probe))))
  ]

  answer_held-waiting :
      (c : Cache P) (r : Request) → (answer_held c r).1 ≡ waiting → (answer_held c r).0 ≡ start c r
  unfolding answer_held
  answer_held-waiting c r w = ground arith

  answer_held-HasPlace :
      (c : Cache P) (r s : Request)
      → Beside r s
      → (answer_held c r).1 ≡ waiting
      → HasPlace s (answer_held c r).0.running (answer_held c r).0.queued
  unfolding answer_held
  answer_held-HasPlace c r s k w = rw (answer_held-waiting c r w) (start-HasPlace c r s k)

  answer_running-HasPlace :
      (c : Cache P) (r s : Request) (o : Option Build)
      → c.running ≡ o
      → Beside r s
      → (answer_running c r o).1 ≡ waiting
      → HasPlace s (answer_running c r o).0.running (answer_running c r o).0.queued
  unfolding answer_running
  answer_running-HasPlace c r s none e k w = answer_held-HasPlace c r s k w
  answer_running-HasPlace c r s (some b) e k w = elim (Bool-cases (may_join r b)) [
    | inl joins ↦ rw (joins, answer_running) (inr (may_join-Beside r s b k joins))
    | inr waits ↦
        rw (waits, answer_running) (answer_held-HasPlace c r s k (rw (waits, answer_running) at w))
  ]

  get-HasPlace :
      (c : Cache P) (r s : Request)
      → Beside r s
      → (get c r).1 ≡ waiting
      → HasPlace s (get c r).0.running (get c r).0.queued
  unfolding get
  get-HasPlace c r s k w = elim (Option-cases (join_queued r c.queued)) [
    | inl e ↦ rw (e, get) (answer_running-HasPlace c r s c.running refl k (rw (e, get) at w))
    | inr (bs, e) ↦ rw (e, get) (room-HasPlace s c.running bs (joined-HasRoom r s k c.queued bs e))
  ]

  place-builds :
      (c : Cache P) (s : Request) (o : Option Build)
      → c.running ≡ o
      → HasPlace s o c.queued
      → builds (get c s).0 ≡ builds c
  place-builds c s none e h = room-builds c s h
  place-builds c s (some b) e (inl h) = room-builds c s h
  place-builds c s (some b) e (inr m) = running-builds c s b e m

  -- A request of the same kind, with the same override and no later arrival, that comes next after
  -- one that waits for a build, forced or not, runs no further build.
  pub get_shares :
      (c : Cache P) (r s : Request)
      → Beside r s
      → (get c r).1 ≡ waiting
      → builds (get (get c r).0 s).0 ≡ builds (get c r).0
  get_shares c r s k w =
      place-builds (get c r).0 s (get c r).0.running refl (get-HasPlace c r s k w)
