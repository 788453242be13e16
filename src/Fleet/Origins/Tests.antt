-- ===== src/Fleet/Origins/Tests.antt =====
-- Origins that resolve to a proxy in the fleet.
use labview.Common.{◌≡◌, ◌↔◌, true, false, Bool, [], ◌∷◌, List}
use labview.Common.Text.{Text, codes}
use labview.Payload.{plain_service, AppStack, Service, fleet_service}
use labview.Fleet.Networks.{Networks, new_networks}
use labview.Fleet.Address.{parse_address}
use labview.Fleet.Index.{new_index}
use labview.Fleet.Origins.{resolve_origin}
use labview.Fleet.Origins.Hops.{asks, Fronts, resolve_origin-hop}

abbrev web : Service
web = plain_service (codes "web") (codes "edge" ∷ [])

abbrev stacks : List AppStack
stacks =
    record {
      id = codes "m";
      services = record web { name = codes "proxy" } ∷ web ∷ [];
      declared_networks = [];
    }
    ∷ []

abbrev nets : Networks
nets = new_networks stacks

-- no address here is an IP literal
abbrev no_ip : Text → Bool
no_ip host = false

resolve_origin-hop_example :
    (((resolve_origin no_ip
          (new_index stacks)
          nets
          (codes "m/web")
          web
          (codes "http://proxy")).target.kind
        ≡ fleet_service)
      × ((resolve_origin no_ip
            (new_index stacks)
            nets
            (codes "m/web")
            web
            (codes "http://proxy")).target.hop_key
          ≡ codes "m/proxy"))
    ↔ ((asks no_ip
            (new_index stacks)
            nets
            (codes "m/web")
            web
            (parse_address (codes "http://proxy"))
          ≡ true)
        × Fronts no_ip
            (new_index stacks)
            nets
            (codes "m/web")
            (parse_address (codes "http://proxy"))
            (codes "m/proxy")
        × ((other : Text)
            → Fronts no_ip
                (new_index stacks)
                nets
                (codes "m/web")
                (parse_address (codes "http://proxy"))
                other
            → other ≡ codes "m/proxy"))
resolve_origin-hop_example =
    resolve_origin-hop no_ip stacks nets (codes "m/web") web (codes "http://proxy")
      (codes "m/proxy")
