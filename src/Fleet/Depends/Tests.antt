-- ===== src/Fleet/Depends/Tests.antt =====
-- The theorem on dependencies at a concrete fleet, and what that fleet's dependencies are.
use labview.Common.{◌≡◌, refl, List, [], ◌∷◌, none, some}
use labview.Common.Text.{Text, codes, cut_byte}
use labview.Payload.{plain_service, plain_declaration, AppStack, Service}
use labview.Fleet.{each}
use labview.Fleet.Networks.{new_networks}
use labview.Fleet.Depends.{dependencies, cut_ref}
use labview.Fleet.Depends.Merged.{IsMerged, dependencies-IsMerged}

abbrev needy : Text → List Text → Service
needy name depends_on = record (plain_service name (codes "media_default" ∷ [])) {
  depends_on = depends_on;
  declared = some (record (plain_declaration (codes "labview.yml")) {
    depends_on = record { ref = codes "media/db"; detail = codes "state" } ∷ [];
  });
}

abbrev stacks : List AppStack
stacks =
    record {
      id = codes "media";
      services = needy (codes "web") (codes "db" ∷ codes "gone" ∷ []) ∷ needy (codes "db") [] ∷ [];
      declared_networks = [];
    }
    ∷ []

cut_qualified : cut_ref (codes "media/db") ≡ some (codes "media", codes "db")
unfolding cut_ref cut_byte
cut_qualified = refl

cut_bare : cut_ref (codes "/db") ≡ none
unfolding cut_ref cut_byte
cut_bare = refl

dependencies-IsMerged_example :
    IsMerged (each stacks) (new_networks stacks) (dependencies stacks (new_networks stacks))
dependencies-IsMerged_example = dependencies-IsMerged stacks (new_networks stacks)
