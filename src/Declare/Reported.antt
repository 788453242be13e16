-- ===== src/Declare/Reported.antt =====
-- What the comparison reports, mechanism by mechanism (compare.go, `Compare`).
use labview.Common.{
  ◌≡◌, ◌∙◌, refl, Bool, true, false, ◌||◌, List, [], ◌∷◌, arith, no_items, if◌then◌else◌,
}
use labview.Payload.{
  AuthMethod, authentik_forward_auth, authentik_oauth, authentik_ldap, forward_auth, other_oauth,
  ldap, basic_auth, no_auth, unset, DeclaredAuthMechanism, app_local_accounts, app_ldap, app_oidc,
  app_saml, app_token, mtls, network_restricted, external_proxy, other_mechanism,
  DeclaredAuthAgreement, no_agreement, supplies, redundant, conflicts, supplements, Service,
  declared_auth_mechanisms,
}
use labview.Declare.{
  compare_service, detected_family, family_oidc, family_ldap, family_proxy, in_family,
  beside_family, other_layer,
}
use labview.Declare.Outcomes.{outcome, any_with, compare_service-outcome}

-- Whether a mechanism is declared.
unfoldable pub has_oidc : List DeclaredAuthMechanism → Bool
has_oidc [] = false
has_oidc (app_oidc ∷ ms) = true
has_oidc (_ ∷ ms) = has_oidc ms

unfoldable pub has_ldap : List DeclaredAuthMechanism → Bool
has_ldap [] = false
has_ldap (app_ldap ∷ ms) = true
has_ldap (_ ∷ ms) = has_ldap ms

unfoldable pub has_proxy : List DeclaredAuthMechanism → Bool
has_proxy [] = false
has_proxy (external_proxy ∷ ms) = true
has_proxy (_ ∷ ms) = has_proxy ms

abbrev pub first_of_three : Bool → Bool → Bool → DeclaredAuthAgreement
first_of_three same rival aside =
    if same
    then redundant
    else if rival
    then conflicts
    else if aside
    then supplements
    else no_agreement

-- What a service with a detected method is told of its declared mechanisms, of which three count:
-- against a sign-in of the application, the other one of its two kinds conflicts and a proxy stands
-- beside it; against a gate in front, nothing conflicts.
unfoldable pub told : AuthMethod → List DeclaredAuthMechanism → DeclaredAuthAgreement
told authentik_oauth ms = first_of_three (has_oidc ms) (has_ldap ms) (has_proxy ms)
told other_oauth ms = first_of_three (has_oidc ms) (has_ldap ms) (has_proxy ms)
told authentik_ldap ms = first_of_three (has_ldap ms) (has_oidc ms) (has_proxy ms)
told ldap ms = first_of_three (has_ldap ms) (has_oidc ms) (has_proxy ms)
told authentik_forward_auth ms = first_of_three (has_proxy ms) false (has_oidc ms || has_ldap ms)
told forward_auth ms = first_of_three (has_proxy ms) false (has_oidc ms || has_ldap ms)
told basic_auth ms = no_agreement
told no_auth ms = no_agreement
told unset ms = no_agreement

record IsCounted (ms : List DeclaredAuthMechanism) : Type 0 where
  c_oidc : any_with (in_family family_oidc) ms ≡ has_oidc ms
  c_ldap : any_with (in_family family_ldap) ms ≡ has_ldap ms
  c_proxy : any_with (in_family family_proxy) ms ≡ has_proxy ms
  c_beside_oidc : any_with (beside_family family_oidc) ms ≡ has_ldap ms
  c_beside_ldap : any_with (beside_family family_ldap) ms ≡ has_oidc ms
  c_beside_proxy : any_with (beside_family family_proxy) ms ≡ false
  c_beyond_oidc : any_with (other_layer family_oidc) ms ≡ has_proxy ms
  c_beyond_ldap : any_with (other_layer family_ldap) ms ≡ has_proxy ms
  c_beyond_proxy : any_with (other_layer family_proxy) ms ≡ (has_oidc ms || has_ldap ms)

IsCounted-all : (ms : List DeclaredAuthMechanism) → IsCounted ms
unfolding any_with has_oidc has_ldap has_proxy
IsCounted-all [] = record {
  c_oidc = refl;
  c_ldap = refl;
  c_proxy = refl;
  c_beside_oidc = refl;
  c_beside_ldap = refl;
  c_beside_proxy = refl;
  c_beyond_oidc = refl;
  c_beyond_ldap = refl;
  c_beyond_proxy = refl;
}
IsCounted-all (app_local_accounts ∷ ms) =
    let r = IsCounted-all ms in
    record {
      c_oidc = r.c_oidc;
      c_ldap = r.c_ldap;
      c_proxy = r.c_proxy;
      c_beside_oidc = r.c_beside_oidc;
      c_beside_ldap = r.c_beside_ldap;
      c_beside_proxy = r.c_beside_proxy;
      c_beyond_oidc = r.c_beyond_oidc;
      c_beyond_ldap = r.c_beyond_ldap;
      c_beyond_proxy = r.c_beyond_proxy;
    }
IsCounted-all (app_ldap ∷ ms) =
    let r = IsCounted-all ms in
    record {
      c_oidc = r.c_oidc;
      c_ldap = refl;
      c_proxy = r.c_proxy;
      c_beside_oidc = refl;
      c_beside_ldap = r.c_beside_ldap;
      c_beside_proxy = r.c_beside_proxy;
      c_beyond_oidc = r.c_beyond_oidc;
      c_beyond_ldap = r.c_beyond_ldap;
      c_beyond_proxy = ground arith;
    }
IsCounted-all (app_oidc ∷ ms) =
    let r = IsCounted-all ms in
    record {
      c_oidc = refl;
      c_ldap = r.c_ldap;
      c_proxy = r.c_proxy;
      c_beside_oidc = r.c_beside_oidc;
      c_beside_ldap = refl;
      c_beside_proxy = r.c_beside_proxy;
      c_beyond_oidc = r.c_beyond_oidc;
      c_beyond_ldap = r.c_beyond_ldap;
      c_beyond_proxy = refl;
    }
IsCounted-all (app_saml ∷ ms) =
    let r = IsCounted-all ms in
    record {
      c_oidc = r.c_oidc;
      c_ldap = r.c_ldap;
      c_proxy = r.c_proxy;
      c_beside_oidc = r.c_beside_oidc;
      c_beside_ldap = r.c_beside_ldap;
      c_beside_proxy = r.c_beside_proxy;
      c_beyond_oidc = r.c_beyond_oidc;
      c_beyond_ldap = r.c_beyond_ldap;
      c_beyond_proxy = r.c_beyond_proxy;
    }
IsCounted-all (app_token ∷ ms) =
    let r = IsCounted-all ms in
    record {
      c_oidc = r.c_oidc;
      c_ldap = r.c_ldap;
      c_proxy = r.c_proxy;
      c_beside_oidc = r.c_beside_oidc;
      c_beside_ldap = r.c_beside_ldap;
      c_beside_proxy = r.c_beside_proxy;
      c_beyond_oidc = r.c_beyond_oidc;
      c_beyond_ldap = r.c_beyond_ldap;
      c_beyond_proxy = r.c_beyond_proxy;
    }
IsCounted-all (mtls ∷ ms) =
    let r = IsCounted-all ms in
    record {
      c_oidc = r.c_oidc;
      c_ldap = r.c_ldap;
      c_proxy = r.c_proxy;
      c_beside_oidc = r.c_beside_oidc;
      c_beside_ldap = r.c_beside_ldap;
      c_beside_proxy = r.c_beside_proxy;
      c_beyond_oidc = r.c_beyond_oidc;
      c_beyond_ldap = r.c_beyond_ldap;
      c_beyond_proxy = r.c_beyond_proxy;
    }
IsCounted-all (network_restricted ∷ ms) =
    let r = IsCounted-all ms in
    record {
      c_oidc = r.c_oidc;
      c_ldap = r.c_ldap;
      c_proxy = r.c_proxy;
      c_beside_oidc = r.c_beside_oidc;
      c_beside_ldap = r.c_beside_ldap;
      c_beside_proxy = r.c_beside_proxy;
      c_beyond_oidc = r.c_beyond_oidc;
      c_beyond_ldap = r.c_beyond_ldap;
      c_beyond_proxy = r.c_beyond_proxy;
    }
IsCounted-all (external_proxy ∷ ms) =
    let r = IsCounted-all ms in
    record {
      c_oidc = r.c_oidc;
      c_ldap = r.c_ldap;
      c_proxy = refl;
      c_beside_oidc = r.c_beside_oidc;
      c_beside_ldap = r.c_beside_ldap;
      c_beside_proxy = r.c_beside_proxy;
      c_beyond_oidc = refl;
      c_beyond_ldap = refl;
      c_beyond_proxy = r.c_beyond_proxy;
    }
IsCounted-all (other_mechanism ∷ ms) =
    let r = IsCounted-all ms in
    record {
      c_oidc = r.c_oidc;
      c_ldap = r.c_ldap;
      c_proxy = r.c_proxy;
      c_beside_oidc = r.c_beside_oidc;
      c_beside_ldap = r.c_beside_ldap;
      c_beside_proxy = r.c_beside_proxy;
      c_beyond_oidc = r.c_beyond_oidc;
      c_beyond_ldap = r.c_beyond_ldap;
      c_beyond_proxy = r.c_beyond_proxy;
    }

outcome-told :
    (method : AuthMethod) (exposed : Bool) (ms : List DeclaredAuthMechanism)
    → outcome (detected_family method) exposed ms
      ≡ (if no_items ms then no_agreement else if exposed then supplies else told method ms)
unfolding outcome told
outcome-told method exposed [] = refl
outcome-told authentik_oauth exposed (m ∷ ms) =
    let r = IsCounted-all (m ∷ ms) in ground (arith, r.c_oidc, r.c_beside_oidc, r.c_beyond_oidc)
outcome-told other_oauth exposed (m ∷ ms) =
    let r = IsCounted-all (m ∷ ms) in ground (arith, r.c_oidc, r.c_beside_oidc, r.c_beyond_oidc)
outcome-told authentik_ldap exposed (m ∷ ms) =
    let r = IsCounted-all (m ∷ ms) in ground (arith, r.c_ldap, r.c_beside_ldap, r.c_beyond_ldap)
outcome-told ldap exposed (m ∷ ms) =
    let r = IsCounted-all (m ∷ ms) in ground (arith, r.c_ldap, r.c_beside_ldap, r.c_beyond_ldap)
outcome-told authentik_forward_auth exposed (m ∷ ms) =
    let r = IsCounted-all (m ∷ ms) in ground (arith, r.c_proxy, r.c_beside_proxy, r.c_beyond_proxy)
outcome-told forward_auth exposed (m ∷ ms) =
    let r = IsCounted-all (m ∷ ms) in ground (arith, r.c_proxy, r.c_beside_proxy, r.c_beyond_proxy)
outcome-told basic_auth exposed (m ∷ ms) = refl
outcome-told no_auth exposed (m ∷ ms) = refl
outcome-told unset exposed (m ∷ ms) = refl

-- The comparison reports nothing where no mechanism is declared, and supplies where one is and the
-- service would be exposed. Otherwise the detected method and three of the mechanisms settle it,
-- wherever they stand in the file: for a sign-in of the application, its own kind is redundant, else
-- the other of the two kinds conflicts, else a proxy supplements; for a gate in front, a proxy is
-- redundant, else either kind of sign-in supplements; without either nothing is reported.
pub compare_service-agreement :
    (svc : Service) (exposed : Bool)
    → (compare_service svc exposed).agreement ≡ (
        if no_items (declared_auth_mechanisms svc.declared)
        then no_agreement
        else if exposed
        then supplies
        else told svc.auth.method (declared_auth_mechanisms svc.declared))
compare_service-agreement svc exposed =
    compare_service-outcome svc exposed
    ∙ outcome-told svc.auth.method exposed (declared_auth_mechanisms svc.declared)
