-- ===== src/Fleet/Networks/Tests.antt =====
-- The theorems on the network index at concrete inputs.
use labview.Common.{◌≡◌, ◌≢◌, ◌↔◌, true, List, [], ◌∷◌}
use labview.Common.Text.{Text, codes, contains}
use labview.Payload.{plain_service, AppStack}
use labview.Fleet.{each}
use labview.Fleet.Networks.{new_networks, of, members_of, has_neighbour}
use labview.Fleet.Networks.Members.{attached, new_networks_lem}
use labview.Fleet.Networks.Neighbours.{has_neighbour_iff}

abbrev stacks : List AppStack
stacks =
    record {
      id = codes "media";
      services = plain_service (codes "web") (codes "proxy" ∷ codes "media_default" ∷ []) ∷ [];
      declared_networks = record { name = codes "proxy"; external = true } ∷ [];
    }
    ∷ record {
      id = codes "edge";
      services = plain_service (codes "traefik") (codes "proxy" ∷ []) ∷ [];
      declared_networks = [];
    }
    ∷ []

abbrev web : Text
web = codes "media/web"

abbrev edge : Text
edge = codes "edge/traefik"

new_networks_lem_example :
    (contains (codes "proxy") (of (new_networks stacks) web)
      ≡ attached (each stacks) web (codes "proxy"))
    × (contains web (members_of (new_networks stacks) (codes "proxy"))
        ≡ attached (each stacks) web (codes "proxy"))
new_networks_lem_example = new_networks_lem stacks web (codes "proxy")

has_neighbour_iff_example : (has_neighbour (new_networks stacks) web ≡ true) ↔ (
    (name : Text) × (other : Text) × (other ≢ web)
    × (attached (each stacks) web name ≡ true)
    × (attached (each stacks) other name ≡ true))
has_neighbour_iff_example = has_neighbour_iff stacks web
