-- ===== src/Cache/Progress.antt =====
-- That a request is answered, by what, and with how many builds (cache.go, `Get` and `drain`).
use labview.Common.{
  ℕ, suc, ◌+◌, ◌<◌, ◌≡◌, refl, ◌∙◌, true, false, inl, inr, Bool-cases, Option-cases, List, [], ◌∷◌,
  ◌++◌, Option, none, some, arith, length,
}
use labview.Cache.{
  Cache, Request, Build, Finished, Reply, held, waiting, probe_suits, join, join_queued, may_join,
  own_build, next_build, rest_of, start, fresh, answer_held, answer_running, get, finish_build,
  finish,
}

-- The requests that wait, and those that were answered by a build.
abbrev pub asked : List Build → ℕ
asked [] = 0
asked (b ∷ bs) = length b.waiters + asked bs

abbrev pub asked_running : Option Build → ℕ
asked_running none = 0
asked_running (some b) = length b.waiters

asked-append : (bs cs : List Build) → asked (bs ++ cs) ≡ asked bs + asked cs
asked-append [] cs = omega arith
asked-append (b ∷ bs) cs = omega (arith, asked-append bs cs)

pub asked-join_queued :
    (r : Request) (bs bs' : List Build)
    → join_queued r bs ≡ some bs'
    → (asked bs' ≡ suc (asked bs)) × (length bs' ≡ length bs)
unfolding join_queued join
asked-join_queued r [] bs' e = absurd (ground arith)
asked-join_queued r (b ∷ bs) bs' e = elim (Option-cases (join_queued r bs)) [
  | inl f ↦ (ground arith, ground arith)
  | inr (cs, f) ↦ let ih = asked-join_queued r bs cs f in (ground arith, ground arith)
]

length-join : (r : Request) (b : Build) → length (join r b).waiters ≡ suc (length b.waiters)
unfolding join
length-join r b = refl

asked-next :
    (now : ℕ) (bs : List Build) → asked_running (next_build now bs) + asked (rest_of bs) ≡ asked bs
unfolding next_build
asked-next now [] = omega arith
asked-next now (b ∷ bs) = omega arith

module _ {P : Type 0} where
  -- The loop of `drain`: each build returns something, at some time, until none is left to run.
  pub drain : Cache P → List (P × ℕ) → Cache P
  drain c [] = c
  drain c ((out, now) ∷ ends) = drain (finish c out now) ends

  abbrev pub answered : List (Finished P) → ℕ
  answered [] = 0
  answered (f ∷ fs) = length f.build.waiters + answered fs

  abbrev pub requests : Cache P → ℕ
  requests c = asked_running c.running + asked c.queued + answered c.finished

  -- Builds that run or wait to.
  abbrev pub builds : Cache P → ℕ
  builds c = elim c.running [ none ↦ length c.queued | some b ↦ suc (length c.queued) ]

  answered-append : (fs gs : List (Finished P)) → answered (fs ++ gs) ≡ answered fs + answered gs
  answered-append [] gs = omega arith
  answered-append (f ∷ fs) gs = omega (arith, answered-append fs gs)

  requests-start : (c : Cache P) (r : Request) → requests (start c r) ≡ suc (requests c)
  unfolding start
  requests-start c r = ground (arith, asked-append c.queued (own_build r ∷ []))

  -- What a request gets.
  abbrev pub Answered : Cache P → Request → Cache P → Reply P → Type 0
  Answered c r d (held p) =
      (d ≡ c)
      × (c.current ≡ some p)
      × (r.forced ≡ false)
      × (0 < c.ttl)
      × (r.arrived < c.at + c.ttl)
      × (probe_suits r.probe c.probe ≡ true)
  Answered c r d waiting = requests d ≡ suc (requests c)

  fresh_lem :
      (c : Cache P) (arrived : ℕ) (p : P)
      → fresh c arrived ≡ some p
      → (c ≡ c)
        × (c.current ≡ some p)
        × (false ≡ false)
        × (0 < c.ttl)
        × (arrived < c.at + c.ttl)
        × (true ≡ true)
  unfolding fresh
  fresh_lem c arrived p e = (refl, ground arith, refl, ground arith, ground arith, refl)

  answer_held-Answered :
      (c : Cache P) (r : Request) → Answered c r (answer_held c r).0 (answer_held c r).1
  unfolding answer_held
  answer_held-Answered c r = elim (Bool-cases r.forced) [
    | inl forced ↦ simp (forced, answer_held) (requests-start c r)
    | inr idle ↦ elim (Option-cases (fresh c r.arrived)) [
      | inl e ↦ simp (idle, e, answer_held) (requests-start c r)
      | inr (p, e) ↦ elim (Bool-cases (probe_suits r.probe c.probe)) [
        | inl fits ↦ simp (idle, e, fits, answer_held) (fresh_lem c r.arrived p e)
        | inr other ↦ simp (idle, e, other, answer_held) (requests-start c r)
      ]
    ]
  ]

  answer_running-Answered :
      (c : Cache P) (r : Request) (o : Option Build)
      → c.running ≡ o
      → Answered c r (answer_running c r o).0 (answer_running c r o).1
  unfolding answer_running
  answer_running-Answered c r none e = answer_held-Answered c r
  answer_running-Answered c r (some b) e = elim (Bool-cases (may_join r b)) [
    | inl joins ↦ rw (joins, answer_running) (rw e (omega (arith, length-join r b)))
    | inr waits ↦ rw (waits, answer_running) (answer_held-Answered c r)
  ]

  -- Every request is answered in one of two ways. Either at once, and then it was not forced, the
  -- payload is the one that is held, whose build started within the time to live before the request
  -- arrived and suits its override, and nothing changes. Or it waits for a build, and it is counted
  -- among the requests of the builds that run, wait or have finished.
  pub get-Answered : (c : Cache P) (r : Request) → Answered c r (get c r).0 (get c r).1
  unfolding get
  get-Answered c r = elim (Option-cases (join_queued r c.queued)) [
    | inl e ↦ rw (e, get) (answer_running-Answered c r c.running refl)
    | inr (bs, e) ↦ let j = asked-join_queued r c.queued bs e in rw (e, get) (omega (arith, j.0))
  ]

  finish_running :
      (c : Cache P) (out : P) (now : ℕ) {b : Build}
      → c.running ≡ some b
      → (requests (finish c out now) ≡ requests c)
        × ((finish c out now).running ≡ next_build now c.queued)
        × ((finish c out now).queued ≡ rest_of c.queued)
  unfolding finish finish_build
  finish_running c out now {b = b} e =
      rw (e, finish)
        (
          omega (
            arith,
            asked-next now c.queued,
            answered-append c.finished (record { build = b; result = out } ∷ []),
          ),
          refl,
          refl,
        )

  requests_idle :
      (c : Cache P) → c.running ≡ none → c.queued ≡ [] → answered c.finished ≡ requests c
  requests_idle c e q = rw (e, q) (omega arith)

  -- The same, with the queue as an argument to recur on.
  drain_queue :
      (q : List Build) (c : Cache P) {b : Build} (outs : List (P × ℕ))
      → c.running ≡ some b
      → c.queued ≡ q
      → length outs ≡ suc (length q)
      → ((drain c outs).running ≡ none)
        × ((drain c outs).queued ≡ [])
        × (answered (drain c outs).finished ≡ requests c)
  unfolding drain next_build
  drain_queue q c [] busy e n = absurd (omega arith)
  drain_queue [] c ((out, now) ∷ []) busy e n =
      let (same, running, queued) = finish_running c out now busy in
      (
        running ∙ rw e,
        queued ∙ rw e,
        requests_idle (finish c out now) (running ∙ rw e) (queued ∙ rw e) ∙ same,
      )
  drain_queue [] c (o ∷ p ∷ outs) busy e n = absurd (omega arith)
  drain_queue (b ∷ q) c ((out, now) ∷ outs) busy e n =
      let (same, running, queued) = finish_running c out now busy in
      let (r, s, t) =
        drain_queue q (finish c out now) {b = record b { started_at = now }} outs (running ∙ rw e)
          (queued ∙ rw e) (omega arith) in
      (r, s, t ∙ same)

  -- Builds that return, as many as run or wait, answer every request: none is left running or
  -- waiting, and each request that was counted is among those of a finished build. A build has to
  -- be running.
  pub drain_answers :
      (c : Cache P) (b : Build) (outs : List (P × ℕ))
      → c.running ≡ some b
      → length outs ≡ suc (length c.queued)
      → ((drain c outs).running ≡ none)
        × ((drain c outs).queued ≡ [])
        × (answered (drain c outs).finished ≡ requests c)
  drain_answers c b outs busy n = drain_queue c.queued c outs busy refl n
