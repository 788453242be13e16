-- ===== src/Fleet/Stats.antt =====
-- internal/fleet/stats.go: the counters of the overview.
--
-- The map `ByAuthMethod` is a function, `by_method`; the loops are one turn for each service, reference
-- or network, as in the code.

pub mod Turns
pub mod Counted
pub mod Partition
mod Tests
use labview.Common.{
  no_items, ℕ, ◌+◌, ◌==◌, Bool, true, false, ◌&&◌, ◌||◌, not, List, [], ◌∷◌, ◌++◌, Option, none,
  some, length, if◌then◌else◌,
}
use labview.Common.Text.{Text}
use labview.Common.Map.{lookup}
use labview.Payload.{
  is_supplies, public, traefik, lan, internal, no_ingress, AuthMethod, authentik_forward_auth,
  authentik_oauth, authentik_ldap, forward_auth, other_oauth, ldap, basic_auth, no_auth, unset,
  detected, supplies, Service, ServiceDeclaration, ServiceProbe, AppStack, DockerState,
}
use labview.Fleet.{Visit, each}
use labview.Fleet.Ingress.{has_kind}
use labview.Fleet.Networks.{Network, Networks, connecting, cross_stack, solo_local}
use labview.Fleet.Depends.{Dependency, Deps}

pub record OverviewStats : Type 0 where
  pub stacks : ℕ
  pub services : ℕ
  pub running : ℕ
  pub public_services : ℕ
  pub traefik_services : ℕ
  pub lan_services : ℕ
  pub internal_services : ℕ
  pub no_ingress_services : ℕ
  pub auth_protected : ℕ
  pub exposed_without_auth : ℕ
  pub by_method : AuthMethod → ℕ
  pub declared_auth : ℕ
  pub declared_auth_protected : ℕ
  pub declared_auth_unconfirmed : ℕ
  pub exposure_accepted : ℕ
  pub declaration_drift : ℕ
  pub declared_dependencies : ℕ
  pub probe_gated : ℕ
  pub probe_open : ℕ
  pub networks : ℕ
  pub connecting_networks : ℕ
  pub cross_stack_networks : ℕ
  pub solo_local_networks : ℕ

-- `payload.AuthMethods`
abbrev pub auth_methods : List AuthMethod
auth_methods =
    authentik_forward_auth ∷ authentik_oauth ∷ authentik_ldap ∷ forward_auth ∷ other_oauth ∷ ldap
    ∷ basic_auth ∷ no_auth ∷ []

abbrev method_index : AuthMethod → ℕ
method_index authentik_forward_auth = 0
method_index authentik_oauth = 1
method_index authentik_ldap = 2
method_index forward_auth = 3
method_index other_oauth = 4
method_index ldap = 5
method_index basic_auth = 6
method_index no_auth = 7
method_index unset = 8

abbrev pub same_method : AuthMethod → AuthMethod → Bool
same_method a b = method_index a == method_index b

-- the empty method is counted as `none`
abbrev pub counted_method : AuthMethod → AuthMethod
counted_method unset = no_auth
counted_method m = m

-- `s.X++` under a condition
abbrev pub plus : Bool → ℕ → ℕ
plus b n = if b then n + 1 else n

abbrev pub is_running : Option DockerState → Bool
is_running none = false
is_running (some d) = d.running

abbrev pub gated : Option ServiceProbe → Bool
gated none = false
gated (some p) = p.gate

abbrev pub open_probe : Option ServiceProbe → Bool
open_probe none = false
open_probe (some p) = not p.gate && p.answered

-- the end of the turn, for a service that has a declaration
abbrev pub count_declaration : Option ServiceDeclaration → OverviewStats → OverviewStats
count_declaration none s = s
count_declaration (some d) s = record s {
  declared_auth = plus (not (no_items d.auth)) s.declared_auth;
  declared_auth_protected = plus (is_supplies d.auth_agreement) s.declared_auth_protected;
  declared_auth_unconfirmed = plus (not (no_items d.unconfirmed)) s.declared_auth_unconfirmed;
  exposure_accepted = plus d.unauthenticated_accepted s.exposure_accepted;
  declaration_drift = s.declaration_drift + length d.drift;
}

unfoldable pub count_service : Service → OverviewStats → OverviewStats
count_service svc s =
    let method = counted_method svc.auth.method in
    count_declaration svc.declared (record s {
      services = s.services + 1;
      running = plus (is_running svc.docker) s.running;
      public_services = plus (has_kind svc.ingress public) s.public_services;
      traefik_services = plus (has_kind svc.ingress traefik) s.traefik_services;
      lan_services = plus (has_kind svc.ingress lan) s.lan_services;
      internal_services = plus (has_kind svc.ingress internal) s.internal_services;
      no_ingress_services = plus (has_kind svc.ingress no_ingress) s.no_ingress_services;
      by_method = λ m. plus (same_method m method) (s.by_method m);
      auth_protected = plus (detected method) s.auth_protected;
      exposed_without_auth = plus svc.auth.exposed_without_auth s.exposed_without_auth;
      probe_gated = plus (gated svc.probe) s.probe_gated;
      probe_open = plus (open_probe svc.probe) s.probe_open;
    })

unfoldable pub count_services : List Visit → OverviewStats → OverviewStats
count_services [] s = s
count_services (v ∷ vs) s = count_services vs (count_service v.service s)

unfoldable pub count_references : List Dependency → OverviewStats → OverviewStats
count_references [] s = s
count_references (d ∷ ds) s =
    count_references ds
      (record s { declared_dependencies = plus d.declared s.declared_dependencies })

-- `All`; each name of the order is in the map
unfoldable pub all_networks : Networks → List Text → List Network
all_networks idx [] = []
all_networks idx (name ∷ names) = elim (lookup name idx.by_name) [
  | none ↦ all_networks idx names
  | some net ↦ net ∷ all_networks idx names
]

unfoldable pub count_network : Network → OverviewStats → OverviewStats
count_network net s = record s {
  networks = s.networks + 1;
  connecting_networks = plus (connecting net) s.connecting_networks;
  cross_stack_networks = plus (cross_stack net) s.cross_stack_networks;
  solo_local_networks = plus (solo_local net) s.solo_local_networks;
}

unfoldable pub count_networks : List Network → OverviewStats → OverviewStats
count_networks [] s = s
count_networks (n ∷ ns) s = count_networks ns (count_network n s)

abbrev pub no_stats : ℕ → OverviewStats
no_stats stacks = record {
  stacks = stacks;
  services = 0;
  running = 0;
  public_services = 0;
  traefik_services = 0;
  lan_services = 0;
  internal_services = 0;
  no_ingress_services = 0;
  auth_protected = 0;
  exposed_without_auth = 0;
  by_method = λ m. 0;
  declared_auth = 0;
  declared_auth_protected = 0;
  declared_auth_unconfirmed = 0;
  exposure_accepted = 0;
  declaration_drift = 0;
  declared_dependencies = 0;
  probe_gated = 0;
  probe_open = 0;
  networks = 0;
  connecting_networks = 0;
  cross_stack_networks = 0;
  solo_local_networks = 0;
}

-- `Stats`
unfoldable pub stats : List AppStack → Networks → Deps → OverviewStats
stats stacks nets deps =
    count_networks (all_networks nets nets.order)
      (count_references deps.resolved (count_services (each stacks) (no_stats (length stacks))))
