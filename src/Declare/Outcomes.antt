-- ===== src/Declare/Outcomes.antt =====
-- When each outcome of the comparison is reported (compare.go).
use labview.Common.{
  no_items, ◌≡◌, ◌↔◌, ◌⊎◌, refl, Bool, true, false, ◌&&◌, ◌||◌, not, List, [], ◌∷◌, Option, none,
  some, arith, if◌then◌else◌, Option-cases, Bool-cases, inl, inr,
}
use labview.Payload.{
  is_supplies, AuthMethod, DeclaredAuthMechanism, DeclaredAuthAgreement, no_agreement, supplies,
  redundant, conflicts, supplements, Service, declared_auth_mechanisms, detected, match_enforced,
  probe_gate,
}
use labview.Fleet.Ingress.{external}
use labview.Declare.{
  Family, detected_family, in_family, beside_family, other_layer, first_with, compare_family,
  compare_declared, compare_service, would_be_exposed,
}

-- Whether a declared mechanism passes a test.
unfoldable pub any_with : (DeclaredAuthMechanism → Bool) → List DeclaredAuthMechanism → Bool
any_with p [] = false
any_with p (m ∷ ms) = p m || any_with p ms

first_with-cases :
    (p : DeclaredAuthMechanism → Bool) (ms : List DeclaredAuthMechanism)
    → ((first_with p ms ≡ none) × (any_with p ms ≡ false))
      ⊎ ((m : DeclaredAuthMechanism) × (first_with p ms ≡ some m) × (any_with p ms ≡ true))
unfolding first_with any_with
first_with-cases p [] = inl (refl, refl)
first_with-cases p (m ∷ ms) = elim (Bool-cases (p m)) [
  | inl e ↦ inr (m, rw e refl, rw e refl)
  | inr e ↦ elim (first_with-cases p ms) [
    | inl (f, a) ↦ inl (rw (e, f) refl, rw (e, a) refl)
    | inr (k, f, a) ↦ inr (k, rw (e, f) refl, rw (e, a) refl)
  ]
]

-- What the comparison reports, by which mechanisms are declared.
unfoldable pub outcome : Option Family → Bool → List DeclaredAuthMechanism → DeclaredAuthAgreement
outcome fam exposed [] = no_agreement
outcome none exposed (m ∷ ms) = if exposed then supplies else no_agreement
outcome (some fam) exposed (m ∷ ms) =
    if exposed
    then supplies
    else if any_with (in_family fam) (m ∷ ms)
    then redundant
    else if any_with (beside_family fam) (m ∷ ms)
    then conflicts
    else if any_with (other_layer fam) (m ∷ ms)
    then supplements
    else no_agreement

compare_family-agreement :
    (fam : Family) (method : AuthMethod) (ms : List DeclaredAuthMechanism)
    → (compare_family fam method ms).agreement ≡ (
        if any_with (in_family fam) ms
        then redundant
        else if any_with (beside_family fam) ms
        then conflicts
        else if any_with (other_layer fam) ms
        then supplements
        else no_agreement)
unfolding compare_family
compare_family-agreement fam method ms = elim (first_with-cases (in_family fam) ms) [
  | inr (m, f, a) ↦ rw (compare_family, f, a) refl
  | inl (f, a) ↦ elim (first_with-cases (beside_family fam) ms) [
    | inr (m, g, b) ↦ rw (compare_family, f, a, g, b) refl
    | inl (g, b) ↦ elim (first_with-cases (other_layer fam) ms) [
      | inr (m, h, c) ↦ rw (compare_family, f, a, g, b, h, c) refl
      | inl (h, c) ↦ rw (compare_family, f, a, g, b, h, c) refl
    ]
  ]
]

compare_declared-agreement :
    (method : AuthMethod) (exposed : Bool) (ms : List DeclaredAuthMechanism)
    → (compare_declared method exposed ms).agreement ≡ outcome (detected_family method) exposed ms
unfolding compare_declared outcome
compare_declared-agreement method exposed [] = refl
compare_declared-agreement method exposed (m ∷ ms) = elim (Bool-cases exposed) [
  | inl e ↦ elim (Option-cases (detected_family method)) [
    | inl f ↦ rw (e, f) refl
    | inr (fam, f) ↦ rw (e, f) refl
  ]
  | inr e ↦ elim (Option-cases (detected_family method)) [
    | inl f ↦ rw (e, f) refl
    | inr (fam, f) ↦ rw (e, f) (compare_family-agreement fam method (m ∷ ms))
  ]
]

pub compare_service-outcome :
    (svc : Service) (exposed : Bool)
    → (compare_service svc exposed).agreement
      ≡ outcome (detected_family svc.auth.method) exposed (declared_auth_mechanisms svc.declared)
compare_service-outcome svc exposed =
    compare_declared-agreement svc.auth.method exposed (declared_auth_mechanisms svc.declared)

outcome-supplies :
    (fam : Option Family) (exposed : Bool) (ms : List DeclaredAuthMechanism)
    → (outcome fam exposed ms ≡ supplies) ↔ ((exposed ≡ true) × (no_items ms ≡ false))
unfolding outcome
outcome-supplies fam exposed [] = ground arith
outcome-supplies none exposed (m ∷ ms) = ground arith
outcome-supplies (some fam) exposed (m ∷ ms) = ground arith

outcome-is_supplies :
    (fam : Option Family) (exposed : Bool) (ms : List DeclaredAuthMechanism)
    → is_supplies (outcome fam exposed ms) ≡ (exposed && not (no_items ms))
unfolding outcome
outcome-is_supplies fam exposed [] = ground arith
outcome-is_supplies none exposed (m ∷ ms) = ground arith
outcome-is_supplies (some fam) exposed (m ∷ ms) = ground arith

-- A declaration supplies the gate exactly if there is a declared mechanism, the service can be reached
-- from outside, no method is detected on it, no enforced provider matches it and no probe read a
-- gate.
pub compare_service-supplies :
    (svc : Service)
    → ((compare_service svc (would_be_exposed svc)).agreement ≡ supplies) ↔ (
        (no_items (declared_auth_mechanisms svc.declared) ≡ false)
        × (external svc.ingress ≡ true)
        × (detected svc.auth.method ≡ false)
        × (match_enforced svc.authentik ≡ false)
        × (probe_gate svc.probe ≡ false))
compare_service-supplies svc = rw (compare_service-outcome svc (would_be_exposed svc)) (
    ground (
      arith,
      outcome-supplies (detected_family svc.auth.method) (would_be_exposed svc)
          (declared_auth_mechanisms svc.declared),
    ))

pub compare_service-is_supplies :
    (svc : Service) (exposed : Bool)
    → is_supplies (compare_service svc exposed).agreement
      ≡ (exposed && not (no_items (declared_auth_mechanisms svc.declared)))
compare_service-is_supplies svc exposed = rw (compare_service-outcome svc exposed) (
    outcome-is_supplies (detected_family svc.auth.method) exposed
      (declared_auth_mechanisms svc.declared))
