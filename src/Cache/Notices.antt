-- ===== src/Cache/Notices.antt =====
-- What the listener is told (cache.go, `pending` and `flush`).
use labview.Common.{
  ℕ, ◌≡◌, refl, sym, ◌∙◌, true, inl, inr, Option-cases, List, [], ◌∷◌, ◌++◌, append_assoc, Option,
  none, some, arith,
}
use labview.Cache.{
  Cache, Request, Build, Finished, Notice, start, answer_held, answer_running, get, finish_build,
  finish, deliver, fresh,
}
use labview.Cache.World.{World, Step, ask, ends, tells, ticks, Reach, here, next, begin, tell}

module _ {P : Type 0} where
  -- Each notice starts from the payload that the one before it ended with.
  abbrev pub Chain : Option P → List (Notice P) → Option P → Type 0
  Chain p [] q = p ≡ q
  Chain p (n ∷ ns) q = (n.previous ≡ p) × Chain (some n.current) ns q

  -- One notice for each build that finished, in their order.
  abbrev pub Matches : List (Notice P) → List (Finished P) → Type 0
  Matches [] [] = Unit
  Matches (n ∷ ns) (f ∷ fs) = (n.current ≡ f.result) × (n.forced ≡ f.build.forced) × Matches ns fs
  Matches _ _ = ⊥

  Chain-concat :
      (p q : Option P) (ns : List (Notice P)) (n : Notice P)
      → Chain p ns q
      → n.previous ≡ q
      → Chain p (ns ++ n ∷ []) (some n.current)
  Chain-concat p q [] n c e = (e ∙ sym c, refl)
  Chain-concat p q (m ∷ ns) n c e = (c.0, Chain-concat (some m.current) q ns n c.1 e)

  Matches-concat :
      (ns : List (Notice P)) (fs : List (Finished P)) (n : Notice P) (f : Finished P)
      → Matches ns fs
      → n.current ≡ f.result
      → n.forced ≡ f.build.forced
      → Matches (ns ++ n ∷ []) (fs ++ f ∷ [])
  Matches-concat [] [] n f m e k = (e, k, tt)
  Matches-concat [] (g ∷ fs) n f m e k = absurd m
  Matches-concat (o ∷ ns) [] n f m e k = absurd m
  Matches-concat (o ∷ ns) (g ∷ fs) n f m e k = (m.0, m.1, Matches-concat ns fs n f m.2 e k)

  pub record IsTold (told : List (Notice P)) (c : Cache P) : Type 0 where
    pub listening : c.listening ≡ true
    pub chain : Chain none (told ++ c.pending) c.current
    pub builds : Matches (told ++ c.pending) c.finished

  -- A request leaves alone what the listener is owed.
  record IsQuiet (c d : Cache P) : Type 0 where
    listening : d.listening ≡ c.listening
    pending : d.pending ≡ c.pending
    current : d.current ≡ c.current
    finished : d.finished ≡ c.finished

  start-IsQuiet : (c : Cache P) (r : Request) → IsQuiet c (start c r)
  unfolding start
  start-IsQuiet c r = record {
    listening = ground arith;
    pending = ground arith;
    current = ground arith;
    finished = ground arith;
  }

  answer_held-IsQuiet : (c : Cache P) (r : Request) → IsQuiet c (answer_held c r).0
  unfolding answer_held fresh
  answer_held-IsQuiet c r =
      let s = start-IsQuiet c r in
      record {
        listening = ground arith;
        pending = ground arith;
        current = ground arith;
        finished = ground arith;
      }

  answer_running-IsQuiet :
      (c : Cache P) (r : Request) (o : Option Build) → IsQuiet c (answer_running c r o).0
  unfolding answer_running
  answer_running-IsQuiet c r none = answer_held-IsQuiet c r
  answer_running-IsQuiet c r (some b) =
      let s = answer_held-IsQuiet c r in
      record {
        listening = ground arith;
        pending = ground arith;
        current = ground arith;
        finished = ground arith;
      }

  get-IsQuiet : (c : Cache P) (r : Request) → IsQuiet c (get c r).0
  unfolding get
  get-IsQuiet c r =
      let s = answer_running-IsQuiet c r c.running in
      record {
        listening = ground arith;
        pending = ground arith;
        current = ground arith;
        finished = ground arith;
      }

  get-IsTold :
      (told : List (Notice P)) (c : Cache P) (r : Request) → IsTold told c → IsTold told (get c r).0
  get-IsTold told c r t =
      let q = get-IsQuiet c r in
      record {
        listening = q.listening ∙ t.listening;
        chain = rw (q.pending, q.current) t.chain;
        builds = rw (q.pending, q.finished) t.builds;
      }

  finish-IsTold :
      (told : List (Notice P)) (c : Cache P) (out : P) (now : ℕ)
      → IsTold told c
      → IsTold told (finish c out now)
  unfolding finish finish_build
  finish-IsTold told c out now t = elim (Option-cases c.running) [
    | inl idle ↦ rw (idle, finish) t
    | inr (b, busy) ↦
        rw (busy, t.listening, finish)
          (record {
            listening = refl;
            chain =
                rw (← append_assoc)
                  (Chain-concat none c.current (told ++ c.pending) _ t.chain refl);
            builds =
                rw (← append_assoc)
                  (Matches-concat (told ++ c.pending) c.finished _ _ t.builds refl refl);
          })
  ]

  deliver-IsTold :
      (told : List (Notice P)) (c : Cache P)
      → IsTold told c
      → IsTold (tell told (deliver c).1) (deliver c).0
  unfolding deliver
  deliver-IsTold told c t = go c.pending refl
    where
      go : (ns : List (Notice P)) → c.pending ≡ ns → IsTold (tell told (deliver c).1) (deliver c).0
      go [] e = rw (e, deliver) t
      go (n ∷ rest) e =
          rw (e, deliver)
            (record {
              listening = t.listening;
              chain = rw append_assoc (rw e at t.chain);
              builds = rw append_assoc (rw e at t.builds);
            })

  Step-IsTold : {v w : World P} → Step v w → IsTold v.told v.cache → IsTold w.told w.cache
  Step-IsTold (ask w r h) t = get-IsTold w.told w.cache r t
  Step-IsTold (ends w out) t = finish-IsTold w.told w.cache out w.clock t
  Step-IsTold (tells w) t = deliver-IsTold w.told w.cache t
  Step-IsTold (ticks w d) t = record { listening = t.listening; chain = t.chain; builds = t.builds }

  Reach-IsTold : {v w : World P} → IsTold v.told v.cache → Reach v w → IsTold w.told w.cache
  Reach-IsTold t here = t
  Reach-IsTold t (next r st) = Step-IsTold st (Reach-IsTold t r)

  -- Whatever came before, in any order, a listener has been told, or is owed, one notice for each
  -- build that finished, in the order in which they finished, each with that build's payload and
  -- whether it was forced, and each describing the change since the payload of the one before it.
  pub notices_in_order :
      (ttl clock : ℕ) {w : World P} → Reach (begin ttl true clock) w → IsTold w.told w.cache
  notices_in_order ttl clock r =
      Reach-IsTold (record { listening = refl; chain = refl; builds = tt }) r
