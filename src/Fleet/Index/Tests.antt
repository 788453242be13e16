-- ===== src/Fleet/Index/Tests.antt =====
-- The tables of a small fleet.
use labview.Common.{[], ◌∷◌, List}
use labview.Common.Text.{codes}
use labview.Payload.{plain_service, AppStack, Service}

abbrev pub proxy : Service
proxy = record (plain_service (codes "proxy") (codes "edge" ∷ [])) {
  ports = record { published = codes "443"; port = codes "443" } ∷ [];
}

abbrev pub stacks : List AppStack
stacks =
    record {
      id = codes "media";
      services = proxy ∷ plain_service (codes "web") (codes "edge" ∷ []) ∷ [];
      declared_networks = [];
    }
    ∷ []
