-- ===== src/Fleet/Index.antt =====
-- internal/fleet/index.go: the tables from names, ports and addresses to services.
--
-- `Keys`, `Has`, `Service` and `InStack` are searches of the visits (Fleet.Depends). The pointers into
-- the live fleet are the visits, which a writer replaces (Fleet.Origins).

pub mod Listed
mod Tests
use labview.Common.{
  Bool, true, false, ◌&&◌, not, List, [], ◌∷◌, ◌++◌, Option, none, some, if◌then◌else◌, no_items,
}
use labview.Common.Text.{Text, text_eq, is_empty, append_once, to_lower, trim_space}
use labview.Common.Map.{Map, lookup, insert}
use labview.Payload.{Service, AppStack, PortMapping, CloudflareRoute, TraefikRoute, DockerState}
use labview.Fleet.{Visit, each}
use labview.Fleet.Networks.{Networks, or_nil, shares_any}
use labview.Fleet.Address.{Address, parse_address, is_ip}

unfoldable pub fold : Text → Text
fold s = to_lower (trim_space s)

-- `into[lookup]`
unfoldable pub listed : Text → Map (List Text) → List Text
listed name table = or_nil (lookup name table)

-- `add`
unfoldable pub add_name : Text → Text → Map (List Text) → Map (List Text)
add_name name key table =
    let folded = fold name in
    if is_empty folded then table else insert folded (append_once (listed folded table) key) table

unfoldable pub add_names : List Text → Text → Map (List Text) → Map (List Text)
add_names [] key table = table
add_names (name ∷ names) key table = add_names names key (add_name name key table)

abbrev pub published_of : List PortMapping → List Text
published_of [] = []
published_of (p ∷ ps) = p.published ∷ published_of ps

abbrev pub route_names : List CloudflareRoute → List Text
route_names [] = []
route_names (r ∷ rs) = r.hostname ∷ route_names rs

abbrev pub rule_hosts : List TraefikRoute → List Text
rule_hosts [] = []
rule_hosts (r ∷ rs) = r.hosts ++ rule_hosts rs

-- what one service adds to each table, in the order of the calls of `add`
abbrev pub host_ports_of : Service → List Text
host_ports_of svc =
    published_of svc.ports
    ++ elim svc.docker [ none ↦ [] | some d ↦ published_of d.published_ports ]

abbrev pub dns_names_of : Service → List Text
dns_names_of svc =
    svc.name ∷ svc.container_name ∷ elim svc.docker [ none ↦ [] | some d ↦ d.name ∷ [] ]

abbrev pub ips_of : Service → List Text
ips_of svc = elim svc.docker [ none ↦ [] | some d ↦ d.ip_addresses ]

abbrev pub hostnames_of : Service → List Text
hostnames_of svc = route_names svc.cloudflare ++ rule_hosts svc.traefik

pub record Index : Type 0 where
  pub visits : List Visit
  pub host_ports : Map (List Text)
  pub dns_names : Map (List Text)
  pub ips : Map (List Text)
  pub hostnames : Map (List Text)

-- the loops, which fill each table apart from the others
unfoldable pub fill : (Service → List Text) → List Visit → Map (List Text) → Map (List Text)
fill names [] table = table
fill names (v ∷ vs) table = fill names vs (add_names (names v.service) v.key table)

-- `NewIndex`
unfoldable pub new_index : List AppStack → Index
new_index stacks = record {
  visits = each stacks;
  host_ports = fill host_ports_of (each stacks) [];
  dns_names = fill dns_names_of (each stacks) [];
  ips = fill ips_of (each stacks) [];
  hostnames = fill hostnames_of (each stacks) [];
}

unfoldable pub by_host_port : Index → Text → List Text
by_host_port ix port = listed (fold port) ix.host_ports

unfoldable pub by_name : Index → Text → List Text
by_name ix name = listed (fold name) ix.dns_names

unfoldable pub by_ip : Index → Text → List Text
by_ip ix ip = listed (fold ip) ix.ips

unfoldable pub by_hostname : Index → Text → List Text
by_hostname ix host = listed (fold host) ix.hostnames

-- `ByURL`
unfoldable pub by_url : (Text → Bool) → Index → Text → List Text
by_url parse_ip ix raw =
    let a = parse_address raw in
    let got = by_hostname ix a.host in
    if is_empty a.host
    then []
    else if not (no_items got)
    then got
    else if is_ip parse_ip a
    then by_ip ix a.host
    else by_name ix a.host

-- `Reachable`
unfoldable pub reachable : Networks → Text → List Text → List Text
reachable nets from [] = []
reachable nets from (c ∷ candidates) =
    let rest = reachable nets from candidates in
    if not (text_eq c from) && shares_any nets from c then c ∷ rest else rest

-- `GateService`
unfoldable pub gate_service : (Text → Bool) → Index → Text → Option Text
gate_service parse_ip ix address = elim (by_url parse_ip ix address) [
  | [] ↦ none
  | key ∷ [] ↦ some key
  | key ∷ other ∷ keys ↦ none
]
