-- ===== src/Changes/Stripped.antt =====
-- What the configuration diff does not compare: conclusions (changes.go, `strip`).
use labview.Common.{◌≡◌, refl, ◌∙◌, ap, Bool, List, [], ◌∷◌, Option-cases, Bool-cases, inl, inr}
use labview.Common.Text.{Text, is_empty}
use labview.Common.Map.{Map, insert}
use labview.Payload.{Service, AppStack, CloudflareRoute}
use labview.Fleet.{key_of}
use labview.Fleet.Depends.{Refusal}
use labview.Fleet.Networks.{Networks}
use labview.Fleet.Index.{Index}
use labview.Fleet.Origins.{resolve_routes}
use labview.Declare.{apply_service, apply_services, apply}
use labview.Changes.{
  without_origins, strip_service, strip_services, strip, fingerprints_into, fingerprints,
}

strip_service-apply :
    (refused : List Refusal) (key : Text) (svc : Service)
    → strip_service (apply_service refused key svc) ≡ strip_service svc
unfolding strip_service apply_service
strip_service-apply refused key svc = elim (Option-cases svc.declared) [
  | inl e ↦ rw e refl
  | inr (d, e) ↦ rw e refl
]

strip_services-apply :
    (refused : List Refusal) (stack : Text) (services : List Service)
    → strip_services (apply_services refused stack services) ≡ strip_services services
unfolding strip_services apply_services
strip_services-apply refused stack [] = refl
strip_services-apply refused stack (s ∷ services) =
    rw
      (
        strip_services-apply refused stack services,
        strip_service-apply refused (key_of stack s.name) s,
      )
      refl

fingerprints_into-apply :
    (digest : AppStack → Text) (refused : List Refusal) (stacks : List AppStack) (fps : Map Text)
    → fingerprints_into digest (apply refused stacks) fps ≡ fingerprints_into digest stacks fps
unfolding fingerprints_into apply strip
fingerprints_into-apply digest refused [] fps = refl
fingerprints_into-apply digest refused (s ∷ stacks) fps =
    let same : strip (record s { services = apply_services refused s.id s.services }) ≡ strip s =
      rw (strip_services-apply refused s.id s.services) refl in
    ap (λ t. fingerprints_into digest (apply refused stacks) (insert s.id (digest t) fps)) same
    ∙ fingerprints_into-apply digest refused stacks (insert s.id (digest (strip s)) fps)

-- What the walk over the declarations concludes is not configuration: the digests of the stacks are the
-- same before and after it, whatever the digest, the stacks and the refusals.
pub fingerprints-apply :
    (digest : AppStack → Text) (refused : List Refusal) (stacks : List AppStack)
    → fingerprints digest (apply refused stacks) ≡ fingerprints digest stacks
unfolding fingerprints
fingerprints-apply digest refused stacks = fingerprints_into-apply digest refused stacks []

-- Nor is what an origin resolved to.
pub without_origins-resolve_routes :
    (parse_ip : Text → Bool) (ix : Index) (nets : Networks) (key : Text) (svc : Service)
    (routes : List CloudflareRoute) (proxies : List Text)
    → without_origins (resolve_routes parse_ip ix nets key svc routes proxies).0
      ≡ without_origins routes
unfolding without_origins resolve_routes
without_origins-resolve_routes parse_ip ix nets key svc [] proxies = refl
without_origins-resolve_routes parse_ip ix nets key svc (r ∷ routes) proxies =
    elim (Bool-cases (is_empty r.service)) [
      | inl e ↦ rw (e, without_origins-resolve_routes parse_ip ix nets key svc routes proxies) refl
      | inr e ↦ rw (e, without_origins-resolve_routes parse_ip ix nets key svc routes _) refl
    ]
