-- ===== src/Fleet/Stats/Counted.antt =====
-- Every counter is the number of rows that a filter of the fleet shows (stats.go).
use labview.Common.{no_items, ◌+◌, ◌≡◌, refl, true, not, List, arith, length}
use labview.Payload.{
  is_supplies, AuthMethod, Service, traefik, internal, no_ingress, AppStack, public, lan, detected,
}
use labview.Fleet.{each}
use labview.Fleet.Ingress.{has_kind}
use labview.Fleet.Networks.{Networks, connecting, cross_stack, solo_local}
use labview.Fleet.Depends.{Deps}
use labview.Fleet.Stats.{
  OverviewStats, count_services, count_references, all_networks, stats, counted_method, same_method,
  gated, open_probe, no_stats, is_running,
}
use labview.Fleet.Stats.Turns.{
  count, total, one, field-from_zero, field-unchanged, of_declared, IsTurn, count_service-IsTurn,
  count_references_lem, count_networks_lem,
}

-- Each counter, as a number of services, references or networks that a filter shows.
pub record IsCounted (stacks : List AppStack) (nets : Networks) (deps : Deps) : Type 0 where
  pub c_stacks : (stats stacks nets deps).stacks ≡ length stacks
  pub c_services : (stats stacks nets deps).services ≡ total (λ svc. one true) (each stacks)
  pub c_running :
      (stats stacks nets deps).running ≡ total (λ svc. one (is_running svc.docker)) (each stacks)
  pub c_public_services :
      (stats stacks nets deps).public_services
      ≡ total (λ svc. one (has_kind svc.ingress public)) (each stacks)
  pub c_traefik_services :
      (stats stacks nets deps).traefik_services
      ≡ total (λ svc. one (has_kind svc.ingress traefik)) (each stacks)
  pub c_lan_services :
      (stats stacks nets deps).lan_services
      ≡ total (λ svc. one (has_kind svc.ingress lan)) (each stacks)
  pub c_internal_services :
      (stats stacks nets deps).internal_services
      ≡ total (λ svc. one (has_kind svc.ingress internal)) (each stacks)
  pub c_no_ingress_services :
      (stats stacks nets deps).no_ingress_services
      ≡ total (λ svc. one (has_kind svc.ingress no_ingress)) (each stacks)
  pub c_auth_protected :
      (stats stacks nets deps).auth_protected
      ≡ total (λ svc. one (detected svc.auth.method)) (each stacks)
  pub c_exposed_without_auth :
      (stats stacks nets deps).exposed_without_auth
      ≡ total (λ svc. one svc.auth.exposed_without_auth) (each stacks)
  pub c_declared_auth :
      (stats stacks nets deps).declared_auth
      ≡ total (λ svc. of_declared (λ d. one (not (no_items d.auth))) svc) (each stacks)
  pub c_declared_auth_protected :
      (stats stacks nets deps).declared_auth_protected
      ≡ total (λ svc. of_declared (λ d. one (is_supplies d.auth_agreement)) svc) (each stacks)
  pub c_declared_auth_unconfirmed :
      (stats stacks nets deps).declared_auth_unconfirmed
      ≡ total (λ svc. of_declared (λ d. one (not (no_items d.unconfirmed))) svc) (each stacks)
  pub c_exposure_accepted :
      (stats stacks nets deps).exposure_accepted
      ≡ total (λ svc. of_declared (λ d. one d.unauthenticated_accepted) svc) (each stacks)
  pub c_declaration_drift :
      (stats stacks nets deps).declaration_drift
      ≡ total (λ svc. of_declared (λ d. length d.drift) svc) (each stacks)
  pub c_probe_gated :
      (stats stacks nets deps).probe_gated ≡ total (λ svc. one (gated svc.probe)) (each stacks)
  pub c_probe_open :
      (stats stacks nets deps).probe_open ≡ total (λ svc. one (open_probe svc.probe)) (each stacks)
  pub c_method :
      (m : AuthMethod)
      → (stats stacks nets deps).by_method m
        ≡ total (λ svc. one (same_method m (counted_method svc.auth.method))) (each stacks)
  pub c_declared_dependencies :
      (stats stacks nets deps).declared_dependencies ≡ count (λ d. d.declared) deps.resolved
  pub c_networks : (stats stacks nets deps).networks ≡ length (all_networks nets nets.order)
  pub c_connecting :
      (stats stacks nets deps).connecting_networks ≡ count connecting (all_networks nets nets.order)
  pub c_cross_stack :
      (stats stacks nets deps).cross_stack_networks
      ≡ count cross_stack (all_networks nets nets.order)
  pub c_solo_local :
      (stats stacks nets deps).solo_local_networks ≡ count solo_local (all_networks nets nets.order)

-- What the later loops leave of a counter of services, and what they add to theirs.
stats_lem :
    (stacks : List AppStack) (nets : Networks) (deps : Deps)
    → stats stacks nets deps ≡ (
        let c = count_services (each stacks) (no_stats (length stacks)) in
        let ns = all_networks nets nets.order in
        record c {
          declared_dependencies = c.declared_dependencies + count (λ d. d.declared) deps.resolved;
          networks = c.networks + length ns;
          connecting_networks = c.connecting_networks + count connecting ns;
          cross_stack_networks = c.cross_stack_networks + count cross_stack ns;
          solo_local_networks = c.solo_local_networks + count solo_local ns;
        })
unfolding stats
stats_lem stacks nets deps =
    let c = count_services (each stacks) (no_stats (length stacks)) in
    rw
      (
        count_networks_lem (all_networks nets nets.order) (count_references deps.resolved c),
        count_references_lem deps.resolved c,
      )
      refl

-- Each counter of the overview is the number of the stacks, or of the services, the resolved references or the networks
-- that a filter on what is shown of them selects; drift is counted by entries.
pub stats-IsCounted :
    (stacks : List AppStack) (nets : Networks) (deps : Deps) → IsCounted stacks nets deps
stats-IsCounted stacks nets deps =
    let s = no_stats (length stacks) in
    let t : (svc : Service) (s : OverviewStats) → IsTurn svc s = count_service-IsTurn in
    record {
      c_stacks =
          rw
            (
              stats_lem stacks nets deps,
              field-unchanged (λ s. s.stacks) (λ svc. 0) (λ svc s. (t svc s).t_stacks) (each stacks)
                  s,
            )
            refl;
      c_services = rw (stats_lem stacks nets deps) (
          field-from_zero (λ s. s.services) (λ svc. one true) (λ svc s. (t svc s).t_services)
            (each stacks) s refl);
      c_running = rw (stats_lem stacks nets deps) (
          field-from_zero (λ s. s.running) (λ svc. one (is_running svc.docker))
            (λ svc s. (t svc s).t_running) (each stacks) s refl);
      c_public_services = rw (stats_lem stacks nets deps) (
          field-from_zero (λ s. s.public_services) (λ svc. one (has_kind svc.ingress public))
            (λ svc s. (t svc s).t_public_services) (each stacks) s refl);
      c_traefik_services = rw (stats_lem stacks nets deps) (
          field-from_zero (λ s. s.traefik_services) (λ svc. one (has_kind svc.ingress traefik))
            (λ svc s. (t svc s).t_traefik_services) (each stacks) s refl);
      c_lan_services = rw (stats_lem stacks nets deps) (
          field-from_zero (λ s. s.lan_services) (λ svc. one (has_kind svc.ingress lan))
            (λ svc s. (t svc s).t_lan_services) (each stacks) s refl);
      c_internal_services = rw (stats_lem stacks nets deps) (
          field-from_zero (λ s. s.internal_services) (λ svc. one (has_kind svc.ingress internal))
            (λ svc s. (t svc s).t_internal_services) (each stacks) s refl);
      c_no_ingress_services = rw (stats_lem stacks nets deps) (
          field-from_zero (λ s. s.no_ingress_services)
            (λ svc. one (has_kind svc.ingress no_ingress))
            (λ svc s. (t svc s).t_no_ingress_services) (each stacks) s refl);
      c_auth_protected = rw (stats_lem stacks nets deps) (
          field-from_zero (λ s. s.auth_protected) (λ svc. one (detected svc.auth.method))
            (λ svc s. (t svc s).t_auth_protected) (each stacks) s refl);
      c_exposed_without_auth = rw (stats_lem stacks nets deps) (
          field-from_zero (λ s. s.exposed_without_auth) (λ svc. one svc.auth.exposed_without_auth)
            (λ svc s. (t svc s).t_exposed_without_auth) (each stacks) s refl);
      c_declared_auth = rw (stats_lem stacks nets deps) (
          field-from_zero (λ s. s.declared_auth)
            (λ svc. of_declared (λ d. one (not (no_items d.auth))) svc)
            (λ svc s. (t svc s).t_declared_auth) (each stacks) s refl);
      c_declared_auth_protected = rw (stats_lem stacks nets deps) (
          field-from_zero (λ s. s.declared_auth_protected)
            (λ svc. of_declared (λ d. one (is_supplies d.auth_agreement)) svc)
            (λ svc s. (t svc s).t_declared_auth_protected) (each stacks) s refl);
      c_declared_auth_unconfirmed = rw (stats_lem stacks nets deps) (
          field-from_zero (λ s. s.declared_auth_unconfirmed)
            (λ svc. of_declared (λ d. one (not (no_items d.unconfirmed))) svc)
            (λ svc s. (t svc s).t_declared_auth_unconfirmed) (each stacks) s refl);
      c_exposure_accepted = rw (stats_lem stacks nets deps) (
          field-from_zero (λ s. s.exposure_accepted)
            (λ svc. of_declared (λ d. one d.unauthenticated_accepted) svc)
            (λ svc s. (t svc s).t_exposure_accepted) (each stacks) s refl);
      c_declaration_drift = rw (stats_lem stacks nets deps) (
          field-from_zero (λ s. s.declaration_drift) (λ svc. of_declared (λ d. length d.drift) svc)
            (λ svc s. (t svc s).t_declaration_drift) (each stacks) s refl);
      c_probe_gated = rw (stats_lem stacks nets deps) (
          field-from_zero (λ s. s.probe_gated) (λ svc. one (gated svc.probe))
            (λ svc s. (t svc s).t_probe_gated) (each stacks) s refl);
      c_probe_open = rw (stats_lem stacks nets deps) (
          field-from_zero (λ s. s.probe_open) (λ svc. one (open_probe svc.probe))
            (λ svc s. (t svc s).t_probe_open) (each stacks) s refl);
      c_method = λ m. rw (stats_lem stacks nets deps) (
          field-from_zero (λ s. s.by_method m)
            (λ svc. one (same_method m (counted_method svc.auth.method)))
            (λ svc s. (t svc s).t_method m) (each stacks) s refl);
      c_declared_dependencies =
          rw
            (
              stats_lem stacks nets deps,
              field-unchanged (λ s. s.declared_dependencies) (λ svc. 0)
                  (λ svc s. (t svc s).t_declared_dependencies) (each stacks) s,
            )
            (omega arith);
      c_networks =
          rw
            (
              stats_lem stacks nets deps,
              field-unchanged (λ s. s.networks) (λ svc. 0) (λ svc s. (t svc s).t_networks)
                  (each stacks) s,
            )
            (omega arith);
      c_connecting =
          rw
            (
              stats_lem stacks nets deps,
              field-unchanged (λ s. s.connecting_networks) (λ svc. 0)
                  (λ svc s. (t svc s).t_connecting_networks) (each stacks) s,
            )
            (omega arith);
      c_cross_stack =
          rw
            (
              stats_lem stacks nets deps,
              field-unchanged (λ s. s.cross_stack_networks) (λ svc. 0)
                  (λ svc s. (t svc s).t_cross_stack_networks) (each stacks) s,
            )
            (omega arith);
      c_solo_local =
          rw
            (
              stats_lem stacks nets deps,
              field-unchanged (λ s. s.solo_local_networks) (λ svc. 0)
                  (λ svc s. (t svc s).t_solo_local_networks) (each stacks) s,
            )
            (omega arith);
    }
