-- ===== src/Cache/Tests.antt =====
-- A run of the cache, and its theorems at inputs that meet their hypotheses. The payload is a number.
use labview.Common.{ℕ, ◌≡◌, refl, true, false, [], ◌∷◌, none, some, arith, length, All}
use labview.Cache.{
  Cache, Request, Finished, waiting, new, probe_suits, join_queued, may_join, own_build, fresh,
  start, answer_held, answer_running, get, finish,
}
use labview.Cache.World.{World, Reach, here, next, ask, ends, begin}
use labview.Cache.Answers.{IsServed, forced_rule}
use labview.Cache.Notices.{IsTold, notices_in_order}
use labview.Cache.Progress.{drain, drain_answers, answered, requests}

-- A read at time 3, and a rescan at time 5, with the probe.
abbrev read : Request
read = record { arrived = 3; forced = false; probe = none }

abbrev rescan : Request
rescan = record { arrived = 5; forced = true; probe = some true }

abbrev idle : Cache ℕ
idle = new 60 true

-- The read starts a build, and the rescan, which came later, waits for one of its own.
abbrev reading : Cache ℕ
reading = (get idle read).0

abbrev both : Cache ℕ
both = (get reading rescan).0

both_queue : length both.queued ≡ 1
unfolding get answer_running answer_held join_queued probe_suits may_join start fresh
both_queue = refl

both_running : both.running ≡ some (record (own_build read) { started_at = 3 })
unfolding get answer_running answer_held join_queued probe_suits may_join start fresh
both_running = refl

abbrev first_world : World ℕ
first_world = begin 60 true 9

abbrev asked_world : World ℕ
asked_world = record first_world { cache = (get idle read).0 }

abbrev ended_world : World ℕ
ended_world = record asked_world { cache = finish (get idle read).0 17 9 }

to_ended : Reach first_world ended_world
to_ended = next (next here (ask first_world read (omega arith))) (ends asked_world 17)

forced_rule_example : All (λ (f : Finished ℕ). IsServed f.build) ended_world.cache.finished
forced_rule_example = forced_rule 60 true 9 to_ended

notices_in_order_example : IsTold [] ended_world.cache
notices_in_order_example = notices_in_order 60 9 to_ended

drain_answers_example :
    ((drain both ((17, 8) ∷ (18, 12) ∷ [])).running ≡ none)
    × ((drain both ((17, 8) ∷ (18, 12) ∷ [])).queued ≡ [])
    × (answered (drain both ((17, 8) ∷ (18, 12) ∷ [])).finished ≡ requests both)
drain_answers_example =
    drain_answers both (record (own_build read) { started_at = 3 }) ((17, 8) ∷ (18, 12) ∷ [])
      both_running (omega (arith, both_queue))

waits : (get reading rescan).1 ≡ waiting
unfolding get answer_running answer_held join_queued probe_suits may_join start fresh
waits = refl
