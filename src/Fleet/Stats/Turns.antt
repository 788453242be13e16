-- ===== src/Fleet/Stats/Turns.antt =====
-- What one turn of each loop adds to each counter, and so what a loop adds (stats.go).
use labview.Common.{
  no_items, ℕ, suc, ◌+◌, ◌≡◌, refl, ◌∙◌, Bool, true, not, List, [], ◌∷◌, none, some, arith, length,
  Option-cases, inl, inr,
}
use labview.Payload.{
  is_supplies, AuthMethod, Service, ServiceDeclaration, traefik, internal, no_ingress, public, lan,
  detected,
}
use labview.Fleet.{Visit}
use labview.Fleet.Ingress.{has_kind}
use labview.Fleet.Networks.{Network, connecting, cross_stack, solo_local}
use labview.Fleet.Depends.{Dependency}
use labview.Fleet.Stats.{
  OverviewStats, plus, count_service, count_services, count_references, count_network,
  count_networks, counted_method, same_method, gated, open_probe, is_running,
}

-- How many of a list pass a test, and the sum of a measure over the services.
unfoldable pub count {ℓ} : {A : Type ℓ} → (A → Bool) → List A → ℕ
count p [] = 0
count p (x ∷ xs) = plus (p x) (count p xs)

unfoldable pub total : (Service → ℕ) → List Visit → ℕ
total f [] = 0
total f (v ∷ vs) = f v.service + total f vs

abbrev pub one : Bool → ℕ
one b = plus b 0

module _ (field : OverviewStats → ℕ) (f : Service → ℕ) where
  pub field-count_services :
      ((svc : Service) (s : OverviewStats) → field (count_service svc s) ≡ field s + f svc)
      → (vs : List Visit) (s : OverviewStats) → field (count_services vs s) ≡ field s + total f vs
  unfolding count_services total
  field-count_services turn [] s = omega arith
  field-count_services turn (v ∷ vs) s =
      omega (arith, field-count_services turn vs (count_service v.service s), turn v.service s)

  pub field-from_zero :
      ((svc : Service) (s : OverviewStats) → field (count_service svc s) ≡ field s + f svc)
      → (vs : List Visit) (s : OverviewStats) → field s ≡ 0
      → field (count_services vs s) ≡ total f vs
  field-from_zero turn vs s h = omega (arith, field-count_services turn vs s, h)

  pub field-unchanged :
      ((svc : Service) (s : OverviewStats) → field (count_service svc s) ≡ field s)
      → (vs : List Visit) (s : OverviewStats) → field (count_services vs s) ≡ field s
  unfolding count_services
  field-unchanged turn [] s = refl
  field-unchanged turn (v ∷ vs) s =
      field-unchanged turn vs (count_service v.service s) ∙ turn v.service s

add_zero : (n : ℕ) → n + 0 ≡ n
add_zero n = omega arith

shift : (b : Bool) (n k : ℕ) → plus b n + k ≡ n + plus b k
shift b n k = ground arith

step : (n k : ℕ) → n + 1 + k ≡ n + suc k
step n k = omega arith

pub count_references_lem :
    (ds : List Dependency) (s : OverviewStats)
    → count_references ds s
      ≡ record s { declared_dependencies = s.declared_dependencies + count (λ d. d.declared) ds }
unfolding count_references count
count_references_lem [] s = rw (add_zero s.declared_dependencies) refl
count_references_lem (d ∷ ds) s =
    rw
      (
        count_references_lem ds
            (record s { declared_dependencies = plus d.declared s.declared_dependencies }),
        shift d.declared s.declared_dependencies (count (λ d. d.declared) ds),
      )
      refl

pub count_networks_lem :
    (ns : List Network) (s : OverviewStats)
    → count_networks ns s ≡ record s {
      networks = s.networks + length ns;
      connecting_networks = s.connecting_networks + count connecting ns;
      cross_stack_networks = s.cross_stack_networks + count cross_stack ns;
      solo_local_networks = s.solo_local_networks + count solo_local ns;
    }
unfolding count_networks count count_network
count_networks_lem [] s =
    rw
      (
        add_zero s.networks,
        add_zero s.connecting_networks,
        add_zero s.cross_stack_networks,
        add_zero s.solo_local_networks,
      )
      refl
count_networks_lem (n ∷ ns) s =
    rw
      (
        count_networks_lem ns (count_network n s),
        step s.networks (length ns),
        shift (connecting n) s.connecting_networks (count connecting ns),
        shift (cross_stack n) s.cross_stack_networks (count cross_stack ns),
        shift (solo_local n) s.solo_local_networks (count solo_local ns),
      )
      refl

abbrev pub of_declared : (ServiceDeclaration → ℕ) → Service → ℕ
of_declared f svc = elim svc.declared [ none ↦ 0 | some d ↦ f d ]

-- What one service adds to each counter.
pub record IsTurn (svc : Service) (s : OverviewStats) : Type 0 where
  pub t_services : (count_service svc s).services ≡ s.services + one true
  pub t_running : (count_service svc s).running ≡ s.running + one (is_running svc.docker)
  pub t_public_services :
      (count_service svc s).public_services ≡ s.public_services + one (has_kind svc.ingress public)
  pub t_traefik_services :
      (count_service svc s).traefik_services
      ≡ s.traefik_services + one (has_kind svc.ingress traefik)
  pub t_lan_services :
      (count_service svc s).lan_services ≡ s.lan_services + one (has_kind svc.ingress lan)
  pub t_internal_services :
      (count_service svc s).internal_services
      ≡ s.internal_services + one (has_kind svc.ingress internal)
  pub t_no_ingress_services :
      (count_service svc s).no_ingress_services
      ≡ s.no_ingress_services + one (has_kind svc.ingress no_ingress)
  pub t_auth_protected :
      (count_service svc s).auth_protected ≡ s.auth_protected + one (detected svc.auth.method)
  pub t_exposed_without_auth :
      (count_service svc s).exposed_without_auth
      ≡ s.exposed_without_auth + one svc.auth.exposed_without_auth
  pub t_declared_auth :
      (count_service svc s).declared_auth
      ≡ s.declared_auth + of_declared (λ d. one (not (no_items d.auth))) svc
  pub t_declared_auth_protected :
      (count_service svc s).declared_auth_protected
      ≡ s.declared_auth_protected + of_declared (λ d. one (is_supplies d.auth_agreement)) svc
  pub t_declared_auth_unconfirmed :
      (count_service svc s).declared_auth_unconfirmed
      ≡ s.declared_auth_unconfirmed + of_declared (λ d. one (not (no_items d.unconfirmed))) svc
  pub t_exposure_accepted :
      (count_service svc s).exposure_accepted
      ≡ s.exposure_accepted + of_declared (λ d. one d.unauthenticated_accepted) svc
  pub t_declaration_drift :
      (count_service svc s).declaration_drift
      ≡ s.declaration_drift + of_declared (λ d. length d.drift) svc
  pub t_probe_gated : (count_service svc s).probe_gated ≡ s.probe_gated + one (gated svc.probe)
  pub t_probe_open : (count_service svc s).probe_open ≡ s.probe_open + one (open_probe svc.probe)
  pub t_declared_dependencies :
      (count_service svc s).declared_dependencies ≡ s.declared_dependencies
  pub t_networks : (count_service svc s).networks ≡ s.networks
  pub t_stacks : (count_service svc s).stacks ≡ s.stacks
  pub t_connecting_networks : (count_service svc s).connecting_networks ≡ s.connecting_networks
  pub t_cross_stack_networks : (count_service svc s).cross_stack_networks ≡ s.cross_stack_networks
  pub t_solo_local_networks : (count_service svc s).solo_local_networks ≡ s.solo_local_networks
  pub t_method :
      (m : AuthMethod)
      → (count_service svc s).by_method m
        ≡ s.by_method m + one (same_method m (counted_method svc.auth.method))

pub count_service-IsTurn : (svc : Service) (s : OverviewStats) → IsTurn svc s
unfolding count_service
count_service-IsTurn svc s = elim (Option-cases svc.declared) [
  | inl e ↦ record {
    t_services = ground arith;
    t_running = ground arith;
    t_public_services = ground arith;
    t_traefik_services = ground arith;
    t_lan_services = ground arith;
    t_internal_services = ground arith;
    t_no_ingress_services = ground arith;
    t_auth_protected = ground arith;
    t_exposed_without_auth = ground arith;
    t_declared_auth = ground arith;
    t_declared_auth_protected = ground arith;
    t_declared_auth_unconfirmed = ground arith;
    t_exposure_accepted = ground arith;
    t_declaration_drift = ground arith;
    t_probe_gated = ground arith;
    t_probe_open = ground arith;
    t_declared_dependencies = ground arith;
    t_networks = ground arith;
    t_stacks = ground arith;
    t_connecting_networks = ground arith;
    t_cross_stack_networks = ground arith;
    t_solo_local_networks = ground arith;
    t_method = λ m. ground arith;
  }
  | inr (d, e) ↦ record {
    t_services = ground arith;
    t_running = ground arith;
    t_public_services = ground arith;
    t_traefik_services = ground arith;
    t_lan_services = ground arith;
    t_internal_services = ground arith;
    t_no_ingress_services = ground arith;
    t_auth_protected = ground arith;
    t_exposed_without_auth = ground arith;
    t_declared_auth = ground arith;
    t_declared_auth_protected = ground arith;
    t_declared_auth_unconfirmed = ground arith;
    t_exposure_accepted = ground arith;
    t_declaration_drift = ground arith;
    t_probe_gated = ground arith;
    t_probe_open = ground arith;
    t_declared_dependencies = ground arith;
    t_networks = ground arith;
    t_stacks = ground arith;
    t_connecting_networks = ground arith;
    t_cross_stack_networks = ground arith;
    t_solo_local_networks = ground arith;
    t_method = λ m. ground arith;
  }
]
