-- ===== src/Declare/Exposed.antt =====
-- Declarations and the exposure counters: a declaration moves a service from one counter to another
-- (drift.go and internal/fleet/stats.go).
use labview.Common.{
  ℕ, ◌+◌, ◌≡◌, true, false, List, [], ◌∷◌, ◌++◌, arith, Option-cases, Bool-cases, inl, inr,
}
use labview.Common.Text.{Text}
use labview.Payload.{is_supplies, Service, AppStack}
use labview.Fleet.{Visit, visits, each, key_of}
use labview.Fleet.Depends.{Refusal, Deps}
use labview.Fleet.Networks.{Networks}
use labview.Fleet.Stats.{stats}
use labview.Fleet.Stats.Turns.{total, one, of_declared}
use labview.Fleet.Stats.Counted.{stats-IsCounted}
use labview.Declare.{apply_service, apply_services, apply, would_be_exposed}
use labview.Declare.Outcomes.{compare_service-is_supplies}

total-append : (f : Service → ℕ) (xs ys : List Visit) → total f (xs ++ ys) ≡ total f xs + total f ys
unfolding total
total-append f [] ys = omega arith
total-append f (v ∷ xs) ys = omega (arith, total-append f xs ys)

abbrev exposed : Service → ℕ
exposed svc = one svc.auth.exposed_without_auth

abbrev supplied : Service → ℕ
supplied = of_declared (λ d. one (is_supplies d.auth_agreement))

abbrev reachable : Service → ℕ
reachable svc = one (would_be_exposed svc)

-- Of a service that would be exposed, exactly one of the two is counted; of any other, neither.
apply_service-counted :
    (refused : List Refusal) (key : Text) (svc : Service)
    → exposed (apply_service refused key svc) + supplied (apply_service refused key svc)
      ≡ reachable svc
unfolding apply_service
apply_service-counted refused key svc = elim (Option-cases svc.declared) [
  | inl e ↦ ground arith
  | inr (d, e) ↦ elim (Bool-cases (would_be_exposed svc)) [
    | inl w ↦ let a = compare_service-is_supplies svc true in rw (e, w) (ground (arith, a))
    | inr w ↦ let a = compare_service-is_supplies svc false in rw (e, w) (ground (arith, a))
  ]
]

-- What the walk leaves of one service adds up, so it does over the fleet.
module _ (f g h : Service → ℕ) (refused : List Refusal)
    (turn : (key : Text) (svc : Service)
      → f (apply_service refused key svc) + g (apply_service refused key svc) ≡ h svc) where
  total-visits :
      (stack : Text) (services : List Service)
      → total f (visits stack (apply_services refused stack services))
          + total g (visits stack (apply_services refused stack services))
        ≡ total h (visits stack services)
  unfolding total apply_services
  total-visits stack [] = omega arith
  total-visits stack (s ∷ services) =
      omega (arith, total-visits stack services, turn (key_of stack s.name) s)

  pub total-apply :
      (stacks : List AppStack)
      → total f (each (apply refused stacks)) + total g (each (apply refused stacks))
        ≡ total h (each stacks)
  unfolding total apply each
  total-apply [] = omega arith
  total-apply (s ∷ stacks) =
      let left = visits s.id (apply_services refused s.id s.services) in
      omega (
        arith,
        total-visits s.id s.services,
        total-apply stacks,
        total-append f left (each (apply refused stacks)),
        total-append g left (each (apply refused stacks)),
        total-append h (visits s.id s.services) (each stacks),
      )

-- Once the declarations are applied, the services counted as exposed and those counted as protected by
-- a declaration are together as many as there are services that can be reached from outside and
-- have no gate that was detected, whatever was declared.
pub stats-apply :
    (refused : List Refusal) (stacks : List AppStack) (nets : Networks) (deps : Deps)
    → (stats (apply refused stacks) nets deps).exposed_without_auth
        + (stats (apply refused stacks) nets deps).declared_auth_protected
      ≡ total (λ svc. one (would_be_exposed svc)) (each stacks)
stats-apply refused stacks nets deps =
    let c = stats-IsCounted (apply refused stacks) nets deps in
    omega (
      arith,
      c.c_exposed_without_auth,
      c.c_declared_auth_protected,
      total-apply exposed supplied reachable refused (apply_service-counted refused) stacks,
    )
