-- ===== src/Changes/Tests.antt =====
-- The theorems on what moved between two scans at concrete fleets.
use labview.Common.{◌≡◌, ◌↔◌, refl, true, [], ◌∷◌, no_items}
use labview.Common.Text.{Text, codes}
use labview.Payload.{plain_service, AppStack}
use labview.Declare.{apply}
use labview.Changes.{Scanned, fingerprints, value_at, configuration}
use labview.Changes.Stripped.{fingerprints-apply}
use labview.Changes.Quiet.{configuration_quiet_iff}

abbrev media : AppStack
media = record {
  id = codes "media";
  services = plain_service (codes "web") (codes "proxy" ∷ []) ∷ [];
  declared_networks = [];
}

-- a digest of the identifier alone
abbrev digest : AppStack → Text
digest s = b'#' ∷ s.id

abbrev empty_scan : Scanned
empty_scan = record { stacks = []; stack_total = 0; service_sum = 0 }

abbrev media_scan : Scanned
media_scan = record { stacks = media ∷ []; stack_total = 1; service_sum = 1 }

fingerprints-apply_example :
    fingerprints digest (apply [] (media ∷ [])) ≡ fingerprints digest (media ∷ [])
fingerprints-apply_example = fingerprints-apply digest [] (media ∷ [])

configuration_quiet_iff_example : (no_items (configuration digest empty_scan media_scan) ≡ true) ↔ (
    (id : Text)
    → value_at (fingerprints digest []) id ≡ value_at (fingerprints digest (media ∷ [])) id)
configuration_quiet_iff_example = configuration_quiet_iff digest empty_scan media_scan (λ s. refl)
