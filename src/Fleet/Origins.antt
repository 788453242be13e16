-- ===== src/Fleet/Origins.antt =====
-- internal/fleet/origins.go: what a tunnel route's declared origin resolves to.
--
-- The evidence is prose, and so is the note; what is kept is why an origin is unresolved. A service is
-- written through its pointer, which is `write_service`.

pub mod Hops
mod Tests
use labview.Common.{
  Bool, true, false, ◌&&◌, ◌||◌, not, List, [], ◌∷◌, ◌++◌, Option, none, some, if◌then◌else◌,
  no_items,
}
use labview.Common.Text.{Text, text_eq, is_empty, contains, append_once}
use labview.Payload.{
  OriginKind, self_network, self_host_port, fleet_service, unresolved, OriginTarget,
  CloudflareRoute, Service, DockerState,
}
use labview.Fleet.{Visit}
use labview.Fleet.Networks.{Networks}
use labview.Fleet.Depends.{index_keys, service_at}
use labview.Fleet.Address.{Address, parse_address, is_ip, is_bare_name}
use labview.Fleet.Index.{Index, fold, by_host_port, by_name, reachable}

pub data Unknown : Type 0 where
  no_host no_port outside : Unknown
  unpublished : Unknown
  unshared : List Text → Unknown
  tied : List Text → Unknown

pub record Conclusion : Type 0 where
  pub target : OriginTarget
  pub why : Option Unknown

abbrev concluded : Address → OriginKind → Text → Conclusion
concluded a kind hop = record {
  target = record { host = a.host; port = a.port; kind = kind; hop_key = hop };
  why = none;
}

abbrev unknown : Address → Unknown → Conclusion
unknown a why = record {
  target = record { host = a.host; port = a.port; kind = unresolved; hop_key = [] };
  why = some why;
}

-- the switch over how many candidates can be reached
unfoldable pub settle : Address → List Text → List Text → Conclusion
settle a candidates [] =
    unknown a (if no_items candidates then unpublished else unshared candidates)
settle a candidates (hop ∷ []) = concluded a fleet_service hop
settle a candidates (hop ∷ other ∷ hops) = unknown a (tied (hop ∷ other ∷ hops))

-- `resolveHostPort`
unfoldable pub resolve_host_port : Index → Networks → Text → Address → Conclusion
resolve_host_port ix nets key a =
    let publishers = by_host_port ix a.port in
    if is_empty a.port
    then unknown a no_port
    else if contains key publishers
    then concluded a self_host_port []
    else settle a publishers (reachable nets key publishers)

-- `resolveContainerName`
unfoldable pub resolve_container_name : Index → Networks → Text → Address → Conclusion
resolve_container_name ix nets key a =
    let named = by_name ix a.host in settle a named (reachable nets key named)

abbrev docker_named : Option DockerState → Text → Bool
docker_named none host = false
docker_named (some d) host = text_eq (fold d.name) host

-- `namesSelf`
unfoldable pub names_self : Service → Text → Bool
names_self svc host =
    (text_eq (fold svc.name) host || text_eq (fold svc.container_name) host)
    || docker_named svc.docker host

module _ (parse_ip : Text → Bool) (ix : Index) (nets : Networks) where
  unfoldable pub resolve_address : Text → Service → Address → Conclusion
  resolve_address key svc a =
      if is_empty a.host
      then unknown a no_host
      else if not (is_ip parse_ip a) && names_self svc a.host
      then concluded a self_network []
      else if is_ip parse_ip a
      then resolve_host_port ix nets key a
      else if is_bare_name parse_ip a
      then resolve_container_name ix nets key a
      else unknown a outside

  -- `resolveOrigin`
  unfoldable pub resolve_origin : Text → Service → Text → Conclusion
  resolve_origin key svc address = resolve_address key svc (parse_address address)

  abbrev add_proxy : OriginTarget → List Text → List Text
  add_proxy t proxies = elim t.kind [
    | fleet_service ↦ if is_empty t.hop_key then proxies else append_once proxies t.hop_key
    | self_network ↦ proxies
    | self_host_port ↦ proxies
    | unresolved ↦ proxies
  ]

  -- the loop over the routes of a service, with the proxies that are known so far
  unfoldable pub resolve_routes :
      Text → Service → List CloudflareRoute → List Text → List CloudflareRoute × List Text
  resolve_routes key svc [] proxies = ([], proxies)
  resolve_routes key svc (r ∷ routes) proxies =
      let t = (resolve_origin key svc r.service).target in
      let silent = is_empty r.service in
      let rest = resolve_routes key svc routes (if silent then proxies else add_proxy t proxies) in
      ((if silent then r else record r { origin = some t }) ∷ rest.0, rest.1)

-- a service written where the index finds its key: the last visit that has it
unfoldable pub write_service : Text → Service → List Visit → List Visit
write_service key svc [] = []
write_service key svc (v ∷ vs) =
    if contains key (index_keys vs)
    then v ∷ write_service key svc vs
    else if text_eq v.key key
    then record v { service = svc } ∷ vs
    else v ∷ vs

-- the loop of `Origins`: the live services, and the proxies
unfoldable pub origins_from :
    (Text → Bool) → Index → Networks → List Text → List Visit → List Text → List Visit × List Text
origins_from parse_ip ix nets [] live proxies = (live, proxies)
origins_from parse_ip ix nets (key ∷ keys) live proxies = elim (service_at live key) [
  | none ↦ origins_from parse_ip ix nets keys live proxies
  | some svc ↦
      let done : List CloudflareRoute × List Text =
        resolve_routes parse_ip ix nets key svc svc.cloudflare proxies in
      origins_from parse_ip ix nets keys
        (write_service key (record svc { cloudflare = done.0 }) live) done.1
]

-- `Origins`
unfoldable pub origins : (Text → Bool) → Index → Networks → List Visit × List Text
origins parse_ip ix nets = origins_from parse_ip ix nets (index_keys ix.visits) ix.visits []
