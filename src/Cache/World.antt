-- ===== src/Cache/World.antt =====
-- The cache under concurrency: requests, the end of a build, the listener and the clock in any
-- order. A request reads the clock before it takes the lock, so it may come with any earlier time.
use labview.Common.{ℕ, ◌+◌, ◌≤◌, List, [], ◌∷◌, ◌++◌, Option, none, some, Bool}
use labview.Cache.{Cache, Request, Notice, new, get, finish, deliver}

pub record World (P : Type 0) : Type 0 where
  pub cache : Cache P
  pub clock : ℕ
  -- what the listener has been told, oldest first
  pub told : List (Notice P)

module _ {P : Type 0} where
  abbrev pub tell : List (Notice P) → Option (Notice P) → List (Notice P)
  tell told none = told
  tell told (some n) = told ++ n ∷ []

  pub data Step : World P → World P → Type 0 where
    ask :
        (w : World P) (r : Request)
        → r.arrived ≤ w.clock
        → Step w (record w { cache = (get w.cache r).0 })
    ends : (w : World P) (out : P) → Step w (record w { cache = finish w.cache out w.clock })
    tells :
        (w : World P)
        → Step w (record w { cache = (deliver w.cache).0; told = tell w.told (deliver w.cache).1 })
    ticks : (w : World P) (d : ℕ) → Step w (record w { clock = w.clock + d })

  pub data Reach (w : World P) : World P → Type 0 where
    here : Reach w w
    next : {u v : World P} → Reach w u → Step u v → Reach w v

  abbrev pub begin : ℕ → Bool → ℕ → World P
  begin ttl listening clock = record { cache = new ttl listening; clock = clock; told = [] }
