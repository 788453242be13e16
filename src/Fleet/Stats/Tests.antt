-- ===== src/Fleet/Stats/Tests.antt =====
-- The counters of a small fleet.
use labview.Common.{◌+◌, ◌≡◌, List, [], ◌∷◌}
use labview.Common.Text.{codes}
use labview.Payload.{plain_service, AppStack}
use labview.Fleet.Networks.{Networks, new_networks, drawn}
use labview.Fleet.Depends.{Deps, dependencies}
use labview.Fleet.Stats.{stats, all_networks}
use labview.Fleet.Stats.Turns.{count}
use labview.Fleet.Stats.Partition.{stats-networks}

abbrev stacks : List AppStack
stacks =
    record {
      id = codes "media";
      services =
          plain_service (codes "web") (codes "proxy" ∷ codes "media_default" ∷ [])
          ∷ plain_service (codes "db") (codes "proxy" ∷ [])
          ∷ [];
      declared_networks = [];
    }
    ∷ []

abbrev nets : Networks
nets = new_networks stacks

abbrev deps : Deps
deps = dependencies stacks nets

stats-networks_example :
    count drawn (all_networks nets nets.order) + (stats stacks nets deps).solo_local_networks
    ≡ (stats stacks nets deps).networks
stats-networks_example = stats-networks stacks nets deps
