-- ===== src/Fleet/Ingress/Tests.antt =====
-- The theorems on ingress sets at concrete inputs.
use labview.Common.{◌≡◌, List, [], ◌∷◌}
use labview.Payload.{IngressKind, public, lan, internal}
use labview.Fleet.Ingress.{has_kind, ingress_set}
use labview.Fleet.Ingress.Canonical.{belongs, has_kind-ingress_set}

abbrev seen : List IngressKind
seen = internal ∷ lan ∷ public ∷ lan ∷ []

has_kind-ingress_set_example : has_kind (ingress_set seen) internal ≡ belongs seen internal
has_kind-ingress_set_example = has_kind-ingress_set seen internal
