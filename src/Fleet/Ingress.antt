-- ===== src/Fleet/Ingress.antt =====
-- internal/fleet/ingress.go: how a service can be reached, as a set in the canonical order.
--
-- A kind is one of the five members of the vocabulary; the empty string, which the code skips, is
-- not a kind here. A set under construction is a map from kinds to truth values.

pub mod Canonical
mod Tests
use labview.Common.{
  no_items, Bool, true, false, ◌&&◌, ◌||◌, not, List, [], ◌∷◌, Option, if◌then◌else◌,
}
use labview.Common.Text.{is_empty}
use labview.Payload.{
  IngressKind, public, traefik, lan, internal, no_ingress, Service, CloudflareRoute, TraefikRoute,
  AppStack,
}

abbrev pub same_kind : IngressKind → IngressKind → Bool
same_kind public public = true
same_kind traefik traefik = true
same_kind lan lan = true
same_kind internal internal = true
same_kind no_ingress no_ingress = true
same_kind _ _ = false

abbrev pub ingress_kinds : List IngressKind
ingress_kinds = public ∷ traefik ∷ lan ∷ internal ∷ no_ingress ∷ []

abbrev pub external_ingress_kinds : List IngressKind
external_ingress_kinds = public ∷ traefik ∷ lan ∷ []

abbrev pub is_external : IngressKind → Bool
is_external k = same_kind k public || same_kind k traefik || same_kind k lan

-- `Has`, and membership in the map that `IngressSet` and `Rollup` build
unfoldable pub has_kind : List IngressKind → IngressKind → Bool
has_kind [] want = false
has_kind (k ∷ set) want = if same_kind k want then true else has_kind set want

-- `External`
unfoldable pub external : List IngressKind → Bool
external [] = false
external (k ∷ set) = if is_external k then true else external set

-- the loop over the canonical order that both constructors end with
unfoldable pub in_order : (IngressKind → Bool) → List IngressKind → List IngressKind
in_order seen [] = []
in_order seen (k ∷ kinds) =
    let rest = in_order seen kinds in
    if seen k && not (same_kind k no_ingress) then k ∷ rest else rest

unfoldable pub or_none : List IngressKind → List IngressKind
or_none [] = no_ingress ∷ []
or_none (k ∷ set) = k ∷ set

-- the loop over the external kinds
unfoldable pub any_external : (IngressKind → Bool) → List IngressKind → Bool
any_external seen [] = false
any_external seen (k ∷ kinds) = let rest = any_external seen kinds in if seen k then true else rest

-- `delete(seen, …)` of the two kinds that an external one withholds
abbrev withhold : (IngressKind → Bool) → IngressKind → Bool
withhold seen k =
    if any_external seen external_ingress_kinds
    then not (same_kind k internal || same_kind k no_ingress) && seen k
    else seen k

unfoldable pub ingress_set : List IngressKind → List IngressKind
ingress_set kinds = or_none (in_order (withhold (has_kind kinds)) ingress_kinds)

abbrev any_hostname : List CloudflareRoute → Bool
any_hostname [] = false
any_hostname (r ∷ routes) = if not (is_empty r.hostname) then true else any_hostname routes

abbrev any_rule : List TraefikRoute → Bool
any_rule [] = false
any_rule (r ∷ routes) =
    if not (no_items r.hosts) || not (is_empty r.rule) then true else any_rule routes

abbrev when : Bool → IngressKind → List IngressKind → List IngressKind
when b k rest = if b then k ∷ rest else rest

-- `neighbour` is `nets.HasNeighbour(key)`.
unfoldable pub service_ingress : Service → Bool → List IngressKind
service_ingress svc neighbour = ingress_set (
    when (any_hostname svc.cloudflare) public (
      when (any_rule svc.traefik) traefik (
        when (not (no_items svc.ports)) lan
          (when (not (no_items svc.expose) || neighbour) internal []))))

abbrev pub any_has : List (List IngressKind) → IngressKind → Bool
any_has [] k = false
any_has (set ∷ sets) k = has_kind set k || any_has sets k

unfoldable pub rollup : List (List IngressKind) → List IngressKind
rollup sets = or_none (in_order (λ k. not (same_kind k no_ingress) && any_has sets k) ingress_kinds)

abbrev ingress_sets : List Service → List (List IngressKind)
ingress_sets [] = []
ingress_sets (s ∷ services) = s.ingress ∷ ingress_sets services

unfoldable pub stack_ingress : AppStack → List IngressKind
stack_ingress stack = rollup (ingress_sets stack.services)

-- the loop of `Winner`
unfoldable pub first_of : List IngressKind → List IngressKind → IngressKind
first_of set [] = no_ingress
first_of set (k ∷ kinds) = if has_kind set k then k else first_of set kinds

unfoldable pub winner : List IngressKind → IngressKind
winner set = first_of set ingress_kinds

-- the loop of `MissingAndUnexpected`
unfoldable pub differences :
    List IngressKind → List IngressKind → List IngressKind → List IngressKind × List IngressKind
differences expected detected [] = ([], [])
differences expected detected (k ∷ kinds) =
    let (missing, unexpected) = differences expected detected kinds in
    if has_kind expected k && not (has_kind detected k)
    then (k ∷ missing, unexpected)
    else if has_kind detected k && not (has_kind expected k)
    then (missing, k ∷ unexpected)
    else (missing, unexpected)

unfoldable pub missing_and_unexpected :
    List IngressKind → List IngressKind → List IngressKind × List IngressKind
missing_and_unexpected expected detected = differences expected detected ingress_kinds
