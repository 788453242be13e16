-- ===== src/Payload.antt =====
-- internal/payload/types.go and vocab.go: what the scan knows of a fleet, as the packages after it
-- read it. Fields that no modelled package reads are left out. A note of the walk over the
-- declarations is what its sentence is about; a note of another package is its text.

use labview.Common.{Bool, true, false, ◌||◌, List, [], ◌∷◌, Option, none, some}
use labview.Common.Text.{Text}
use labview.Common.Map.{Map}

pub data IngressKind : Type 0 where
  public traefik lan internal no_ingress : IngressKind

-- `unset` is the empty string, the zero value.
pub data AuthMethod : Type 0 where
  authentik_forward_auth authentik_oauth authentik_ldap forward_auth other_oauth ldap : AuthMethod
  basic_auth no_auth unset : AuthMethod

abbrev pub detected : AuthMethod → Bool
detected no_auth = false
detected unset = false
detected m = true

pub data DeclaredAuthMechanism : Type 0 where
  app_local_accounts app_ldap app_oidc app_saml app_token mtls : DeclaredAuthMechanism
  network_restricted external_proxy other_mechanism : DeclaredAuthMechanism

pub data DeclaredAuthAgreement : Type 0 where
  no_agreement supplies redundant conflicts supplements : DeclaredAuthAgreement

abbrev pub is_supplies : DeclaredAuthAgreement → Bool
is_supplies supplies = true
is_supplies _ = false

pub data OriginKind : Type 0 where
  self_network self_host_port fleet_service unresolved : OriginKind

pub record OriginTarget : Type 0 where
  pub host : Text
  pub port : Text
  pub kind : OriginKind
  pub hop_key : Text

pub record CloudflareAccess : Type 0 where
  pub group : Text
  pub policy : Text
  pub emails : List Text

pub record CloudflareRoute : Type 0 where
  pub hostname : Text
  pub service : Text
  pub path : Text
  pub access : Option CloudflareAccess
  pub no_tls_verify : Option Bool
  pub raw : Map Text
  pub origin : Option OriginTarget

pub record TraefikRoute : Type 0 where
  pub router : Text
  pub rule : Text
  pub hosts : List Text
  pub path_prefixes : List Text
  pub entrypoints : List Text
  pub tls : Bool
  pub cert_resolver : Text
  pub middlewares : List Text
  pub service_port : Text
  pub service : Text

pub record PortMapping : Type 0 where
  pub published : Text
  pub port : Text

pub record DockerState : Type 0 where
  pub name : Text
  pub running : Bool
  pub ip_addresses : List Text
  pub published_ports : List PortMapping

pub record AuthPosture : Type 0 where
  pub method : AuthMethod
  pub exposed_without_auth : Bool

-- `gate` is whether one was read, `answered` whether there is a status.
pub record ServiceProbe : Type 0 where
  pub gate : Bool
  pub answered : Bool

pub data ProviderKind : Type 0 where
  proxy_provider ldap_provider radius_provider oauth2_provider saml_provider scim_provider
        other_provider :
      ProviderKind

pub record AuthentikProvider : Type 0 where
  pub kind : ProviderKind
  pub outposts : List Text

pub record AuthentikApplication : Type 0 where
  pub slug : Text
  pub name : Text
  pub providers : List AuthentikProvider

abbrev some_outpost : List Text → Bool
some_outpost [] = false
some_outpost (o ∷ os) = true

-- `Enforced` of a provider
abbrev pub provider_enforced : AuthentikProvider → Bool
provider_enforced p = elim p.kind [
  | proxy_provider ↦ some_outpost p.outposts
  | ldap_provider ↦ some_outpost p.outposts
  | radius_provider ↦ some_outpost p.outposts
  | oauth2_provider ↦ true
  | saml_provider ↦ true
  | scim_provider ↦ false
  | other_provider ↦ false
]

abbrev any_provider : List AuthentikProvider → Bool
any_provider [] = false
any_provider (p ∷ ps) = provider_enforced p || any_provider ps

-- `Enforced` of a match, which is its applications; without a match there are none
abbrev pub match_enforced : List AuthentikApplication → Bool
match_enforced [] = false
match_enforced (a ∷ apps) = any_provider a.providers || match_enforced apps

pub record DeclaredServiceDependency : Type 0 where
  pub ref : Text
  pub detail : Text

-- A drift entry or an unconfirmed one is what its sentence is about.
pub data Drift : Type 0 where
  stale_acceptance conflicting_mechanism : Drift
  refused_dependency : Text → Drift
  ingress_mismatch : List IngressKind → List IngressKind → Drift

pub data Unconfirmed : Type 0 where
  uncorroborated : List DeclaredAuthMechanism → Unconfirmed
  no_login_page : Unconfirmed

pub record ServiceDeclaration : Type 0 where
  pub file : Text
  pub auth : List DeclaredAuthMechanism
  pub depends_on : List DeclaredServiceDependency
  pub unauthenticated_accepted : Bool
  pub expected_ingress : List IngressKind
  pub drift : List Drift
  pub unconfirmed : List Unconfirmed
  pub auth_agreement : DeclaredAuthAgreement

-- A note on a service: the text of another package's, or what the sentence of a comparison names.
pub data ServiceNote : Type 0 where
  written : Text → ServiceNote
  note_supplies : DeclaredAuthMechanism → Text → ServiceNote
  note_supplements : DeclaredAuthMechanism → AuthMethod → ServiceNote

-- A live router is its name.
pub record Service : Type 0 where
  pub name : Text
  pub container_name : Text
  pub depends_on : List Text
  pub networks : List Text
  pub ports : List PortMapping
  pub expose : List Text
  pub cloudflare : List CloudflareRoute
  pub traefik : List TraefikRoute
  pub ingress : List IngressKind
  pub auth : AuthPosture
  pub docker : Option DockerState
  pub authentik : List AuthentikApplication
  pub traefik_live : List Text
  pub declared : Option ServiceDeclaration
  pub probe : Option ServiceProbe
  pub notes : List ServiceNote

pub record NetworkDecl : Type 0 where
  pub name : Text
  pub external : Bool

pub record AppStack : Type 0 where
  pub id : Text
  pub services : List Service
  pub declared_networks : List NetworkDecl

-- a service that only its name and its networks tell from the zero value
abbrev pub plain_service : Text → List Text → Service
plain_service name networks = record {
  name = name;
  container_name = [];
  depends_on = [];
  networks = networks;
  ports = [];
  expose = [];
  cloudflare = [];
  traefik = [];
  ingress = [];
  auth = record { method = unset; exposed_without_auth = false };
  docker = none;
  authentik = [];
  traefik_live = [];
  declared = none;
  probe = none;
  notes = [];
}

abbrev pub plain_declaration : Text → ServiceDeclaration
plain_declaration file = record {
  file = file;
  auth = [];
  depends_on = [];
  unauthenticated_accepted = false;
  expected_ingress = [];
  drift = [];
  unconfirmed = [];
  auth_agreement = no_agreement;
}

-- `ConfiguredEdgeAuth`
abbrev pub configured_edge_auth : Service → Bool
configured_edge_auth s = detected s.auth.method || match_enforced s.authentik

-- `ProbeGate`
abbrev pub probe_gate : Option ServiceProbe → Bool
probe_gate none = false
probe_gate (some p) = p.gate

-- `HasEdgeAuth`
abbrev pub has_edge_auth : Service → Bool
has_edge_auth s = configured_edge_auth s || probe_gate s.probe

abbrev pub declared_auth_mechanisms : Option ServiceDeclaration → List DeclaredAuthMechanism
declared_auth_mechanisms none = []
declared_auth_mechanisms (some d) = d.auth
