-- ===== src/Fleet/Ingress/Canonical.antt =====
-- What the ingress sets hold, and in which order (ingress.go).
use labview.Common.{◌≡◌, refl, Bool, true, false, ◌&&◌, ◌||◌, not, List, [], ◌∷◌, arith, drop}
use labview.Payload.{IngressKind, public, traefik, lan, internal, no_ingress}
use labview.Fleet.Ingress.{
  same_kind, has_kind, external, in_order, or_none, any_external, ingress_set, any_has, rollup,
  first_of, winner, differences, missing_and_unexpected,
}

-- The members that the set of these kinds should have.
abbrev pub belongs : List IngressKind → IngressKind → Bool
belongs kinds internal = has_kind kinds internal && not (external kinds)
belongs kinds no_ingress = not (external kinds || has_kind kinds internal)
belongs kinds k = has_kind kinds k

external-has_kind :
    (kinds : List IngressKind)
    → external kinds ≡ (has_kind kinds public || has_kind kinds traefik || has_kind kinds lan)
unfolding external has_kind
external-has_kind [] = refl
external-has_kind (public ∷ kinds) = refl
external-has_kind (traefik ∷ kinds) = ground (arith, external-has_kind kinds)
external-has_kind (lan ∷ kinds) = ground (arith, external-has_kind kinds)
external-has_kind (internal ∷ kinds) = ground (arith, external-has_kind kinds)
external-has_kind (no_ingress ∷ kinds) = ground (arith, external-has_kind kinds)

-- The set holds an external kind exactly if it was given; `internal` exactly if it was given and no
-- external kind was; and `none` exactly if none of the four was.
pub has_kind-ingress_set :
    (kinds : List IngressKind) (k : IngressKind) → has_kind (ingress_set kinds) k ≡ belongs kinds k
unfolding ingress_set in_order or_none any_external has_kind
has_kind-ingress_set kinds public = ground (arith, external-has_kind kinds)
has_kind-ingress_set kinds traefik = ground (arith, external-has_kind kinds)
has_kind-ingress_set kinds lan = ground (arith, external-has_kind kinds)
has_kind-ingress_set kinds internal = ground (arith, external-has_kind kinds)
has_kind-ingress_set kinds no_ingress = ground (arith, external-has_kind kinds)

-- The set and its order depend on nothing but which kinds were given.
pub ingress_set_ext :
    (a b : List IngressKind)
    → ((k : IngressKind) → has_kind a k ≡ has_kind b k)
    → ingress_set a ≡ ingress_set b
unfolding ingress_set in_order or_none any_external
ingress_set_ext a b same =
    rw (same public, same traefik, same lan, same internal, same no_ingress) refl

abbrev when : Bool → IngressKind → List IngressKind → List IngressKind
when true k rest = k ∷ rest
when false k rest = rest

abbrev given : Bool → Bool → Bool → Bool → Bool → List IngressKind
given p t l i n =
    when p public (when t traefik (when l lan (when i internal (when n no_ingress []))))

abbrev pub IsFixed : List IngressKind → Type 0
IsFixed set = (ingress_set set ≡ set) × (set ≡ winner set ∷ drop 1 set)

given-Fixed : (p t l i n : Bool) → IsFixed (ingress_set (given p t l i n))
unfolding ingress_set in_order or_none any_external winner first_of has_kind
given-Fixed true true true true true = (refl, refl)
given-Fixed true true true true false = (refl, refl)
given-Fixed true true true false true = (refl, refl)
given-Fixed true true true false false = (refl, refl)
given-Fixed true true false true true = (refl, refl)
given-Fixed true true false true false = (refl, refl)
given-Fixed true true false false true = (refl, refl)
given-Fixed true true false false false = (refl, refl)
given-Fixed true false true true true = (refl, refl)
given-Fixed true false true true false = (refl, refl)
given-Fixed true false true false true = (refl, refl)
given-Fixed true false true false false = (refl, refl)
given-Fixed true false false true true = (refl, refl)
given-Fixed true false false true false = (refl, refl)
given-Fixed true false false false true = (refl, refl)
given-Fixed true false false false false = (refl, refl)
given-Fixed false true true true true = (refl, refl)
given-Fixed false true true true false = (refl, refl)
given-Fixed false true true false true = (refl, refl)
given-Fixed false true true false false = (refl, refl)
given-Fixed false true false true true = (refl, refl)
given-Fixed false true false true false = (refl, refl)
given-Fixed false true false false true = (refl, refl)
given-Fixed false true false false false = (refl, refl)
given-Fixed false false true true true = (refl, refl)
given-Fixed false false true true false = (refl, refl)
given-Fixed false false true false true = (refl, refl)
given-Fixed false false true false false = (refl, refl)
given-Fixed false false false true true = (refl, refl)
given-Fixed false false false true false = (refl, refl)
given-Fixed false false false false true = (refl, refl)
given-Fixed false false false false false = (refl, refl)

when-has_kind :
    (b : Bool) (j k : IngressKind) (rest : List IngressKind)
    → has_kind (when b j rest) k ≡ ((b && same_kind j k) || has_kind rest k)
unfolding has_kind
when-has_kind true j k rest = ground arith
when-has_kind false j k rest = refl

given-has_kind :
    (kinds : List IngressKind) (k : IngressKind)
    → has_kind kinds k
      ≡ has_kind
          (given
            (has_kind kinds public)
            (has_kind kinds traefik)
            (has_kind kinds lan)
            (has_kind kinds internal)
            (has_kind kinds no_ingress))
          k
unfolding has_kind
given-has_kind kinds public = simp (when-has_kind) (ground arith)
given-has_kind kinds traefik = simp (when-has_kind) (ground arith)
given-has_kind kinds lan = simp (when-has_kind) (ground arith)
given-has_kind kinds internal = simp (when-has_kind) (ground arith)
given-has_kind kinds no_ingress = simp (when-has_kind) (ground arith)

-- A set that the constructor built is given back unchanged, and its first element is the winner.
pub ingress_set-IsFixed : (kinds : List IngressKind) → IsFixed (ingress_set kinds)
ingress_set-IsFixed kinds =
    rw (ingress_set_ext kinds _ (given-has_kind kinds)) (given-Fixed _ _ _ _ _)

abbrev pub belongs_union : List (List IngressKind) → IngressKind → Bool
belongs_union sets no_ingress =
    not (any_has sets public || any_has sets traefik || any_has sets lan || any_has sets internal)
belongs_union sets k = any_has sets k

-- A stack's union holds each kind but `none` exactly if a service's set does, and `none` exactly if
-- no service's set holds another.
pub has_kind-rollup :
    (sets : List (List IngressKind)) (k : IngressKind)
    → has_kind (rollup sets) k ≡ belongs_union sets k
unfolding rollup in_order or_none has_kind
has_kind-rollup sets public = ground arith
has_kind-rollup sets traefik = ground arith
has_kind-rollup sets lan = ground arith
has_kind-rollup sets internal = ground arith
has_kind-rollup sets no_ingress = ground arith

-- What is missing is exactly what was expected and not detected, and what is unexpected exactly what
-- was detected and not expected.
pub missing_and_unexpected_lem :
    (expected detected : List IngressKind) (k : IngressKind)
    → (has_kind (missing_and_unexpected expected detected).0 k
        ≡ (has_kind expected k && not (has_kind detected k)))
      × (has_kind (missing_and_unexpected expected detected).1 k
          ≡ (has_kind detected k && not (has_kind expected k)))
unfolding missing_and_unexpected differences has_kind
missing_and_unexpected_lem expected detected public = (ground arith, ground arith)
missing_and_unexpected_lem expected detected traefik = (ground arith, ground arith)
missing_and_unexpected_lem expected detected lan = (ground arith, ground arith)
missing_and_unexpected_lem expected detected internal = (ground arith, ground arith)
missing_and_unexpected_lem expected detected no_ingress = (ground arith, ground arith)
