-- ===== src/Fleet/Stats/Partition.antt =====
-- Which counters of the overview add up (stats.go).
use labview.Common.{ℕ, ◌+◌, ◌≡◌, true, refl, sym, ◌∙◌, List, [], ◌∷◌, arith, length}
use labview.Payload.{AuthMethod, no_auth, Service, AppStack, detected}
use labview.Fleet.{Visit, each}
use labview.Fleet.Networks.{Network, Networks, solo_local, drawn}
use labview.Fleet.Depends.{Deps}
use labview.Fleet.Stats.{stats, counted_method, same_method, auth_methods, all_networks}
use labview.Fleet.Stats.Turns.{count, total, one}
use labview.Fleet.Stats.Counted.{stats-IsCounted}

pub sum_over : (AuthMethod → ℕ) → List AuthMethod → ℕ
sum_over f [] = 0
sum_over f (m ∷ ms) = f m + sum_over f ms

total_sum :
    (f g h : Service → ℕ)
    → ((svc : Service) → f svc + g svc ≡ h svc)
    → (vs : List Visit) → total f vs + total g vs ≡ total h vs
unfolding total
total_sum f g h each_sum [] = omega arith
total_sum f g h each_sum (v ∷ vs) = omega (arith, total_sum f g h each_sum vs, each_sum v.service)

abbrev of_method : AuthMethod → Service → ℕ
of_method m svc = one (same_method m (counted_method svc.auth.method))

-- the methods that a service is counted under, one of them
sum_of_method : (svc : Service) → sum_over (λ m. of_method m svc) auth_methods ≡ one true
unfolding sum_over
sum_of_method svc = ground arith

sum_total :
    (ms : List AuthMethod) (vs : List Visit)
    → sum_over (λ m. total (of_method m) vs) ms
      ≡ total (λ svc. sum_over (λ m. of_method m svc) ms) vs
unfolding sum_over total
sum_total [] vs = total_zero vs
  where
    total_zero : (vs : List Visit) → 0 ≡ total (λ svc. 0) vs
    total_zero [] = omega arith
    total_zero (v ∷ vs) = omega (arith, total_zero vs)
sum_total (m ∷ ms) vs = omega (
  arith,
  sum_total ms vs,
  total_sum (of_method m) (λ svc. sum_over (λ k. of_method k svc) ms)
      (λ svc. of_method m svc + sum_over (λ k. of_method k svc) ms) (λ svc. omega arith) vs,
)

drawn_or_solo : (ns : List Network) → count drawn ns + count solo_local ns ≡ length ns
unfolding count
drawn_or_solo [] = omega arith
drawn_or_solo (n ∷ ns) = ground (arith, drawn_or_solo ns)

-- Every network is either drawn or solo-local, as the counters have it.
pub stats-networks :
    (stacks : List AppStack) (nets : Networks) (deps : Deps)
    → count drawn (all_networks nets nets.order) + (stats stacks nets deps).solo_local_networks
      ≡ (stats stacks nets deps).networks
stats-networks stacks nets deps =
    let c = stats-IsCounted stacks nets deps in
    omega (arith, c.c_networks, c.c_solo_local, drawn_or_solo (all_networks nets nets.order))

sum_over-ext :
    (f g : AuthMethod → ℕ) (ms : List AuthMethod)
    → ((m : AuthMethod) → f m ≡ g m)
    → sum_over f ms ≡ sum_over g ms
unfolding sum_over
sum_over-ext f g [] h = refl
sum_over-ext f g (m ∷ ms) h = omega (arith, sum_over-ext f g ms h, h m)

total-ext :
    (f g : Service → ℕ) (vs : List Visit)
    → ((svc : Service) → f svc ≡ g svc)
    → total f vs ≡ total g vs
unfolding total
total-ext f g [] h = refl
total-ext f g (v ∷ vs) h = omega (arith, total-ext f g vs h, h v.service)

protected_or_none :
    (svc : Service) → one (detected svc.auth.method) + of_method no_auth svc ≡ one true
protected_or_none svc = ground arith

-- The methods partition the services: the counts of the eight methods sum to the number of services,
-- and the services that are not counted under `none` are those with a detected method.
pub stats-methods :
    (stacks : List AppStack) (nets : Networks) (deps : Deps)
    → (sum_over (stats stacks nets deps).by_method auth_methods ≡ (stats stacks nets deps).services)
      × ((stats stacks nets deps).auth_protected + (stats stacks nets deps).by_method no_auth
          ≡ (stats stacks nets deps).services)
stats-methods stacks nets deps =
    let c = stats-IsCounted stacks nets deps in
    let s = stats stacks nets deps in
    (
      sum_over-ext s.by_method (λ m. total (of_method m) (each stacks)) auth_methods c.c_method
          ∙ sum_total auth_methods (each stacks)
          ∙ total-ext (λ svc. sum_over (λ m. of_method m svc) auth_methods) (λ svc. one true)
              (each stacks) sum_of_method
          ∙ sym c.c_services,
      omega (
        arith,
        c.c_auth_protected,
        c.c_method no_auth,
        c.c_services,
        total_sum (λ svc. one (detected svc.auth.method)) (of_method no_auth) (λ svc. one true)
            protected_or_none (each stacks),
      ),
    )
