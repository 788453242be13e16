-- ===== src/Declare.antt =====
-- internal/declare (compare.go and drift.go): what may be done with a sidecar file.
--
-- The map `refusalsByService` is a search of the refusals, in their order. The words of a sentence
-- are left out: a drift entry and a note are what they are about (Payload).

pub mod Outcomes
pub mod Reported
pub mod Applied
pub mod Exposed
mod Tests
use labview.Common.{
  no_items, Bool, true, false, ◌&&◌, ◌||◌, not, List, [], ◌∷◌, ◌++◌, Option, none, some,
  if◌then◌else◌,
}
use labview.Common.Text.{Text, text_eq}
use labview.Payload.{
  IngressKind, AuthMethod, authentik_forward_auth, authentik_oauth, authentik_ldap, forward_auth,
  other_oauth, ldap, unset, DeclaredAuthMechanism, app_ldap, app_oidc, external_proxy,
  DeclaredAuthAgreement, no_agreement, supplies, redundant, conflicts, supplements, Drift,
  stale_acceptance, conflicting_mechanism, refused_dependency, ingress_mismatch, Unconfirmed,
  uncorroborated, no_login_page, ServiceDeclaration, ServiceProbe, Service, AppStack, has_edge_auth,
  declared_auth_mechanisms, is_supplies, ServiceNote, note_supplies, note_supplements,
}
use labview.Fleet.{key_of}
use labview.Fleet.Ingress.{external, missing_and_unexpected}
use labview.Fleet.Depends.{Refusal}

pub data Family : Type 0 where
  family_oidc family_ldap family_proxy : Family

pub data Layer : Type 0 where
  layer_app layer_gate : Layer

abbrev pub layer_of : Family → Layer
layer_of family_oidc = layer_app
layer_of family_ldap = layer_app
layer_of family_proxy = layer_gate

abbrev pub same_family : Family → Family → Bool
same_family family_oidc family_oidc = true
same_family family_ldap family_ldap = true
same_family family_proxy family_proxy = true
same_family _ _ = false

abbrev pub same_layer : Layer → Layer → Bool
same_layer layer_app layer_app = true
same_layer layer_gate layer_gate = true
same_layer _ _ = false

abbrev pub detected_family : AuthMethod → Option Family
detected_family authentik_oauth = some family_oidc
detected_family other_oauth = some family_oidc
detected_family authentik_ldap = some family_ldap
detected_family ldap = some family_ldap
detected_family authentik_forward_auth = some family_proxy
detected_family forward_auth = some family_proxy
detected_family _ = none

abbrev pub declared_family : DeclaredAuthMechanism → Option Family
declared_family app_oidc = some family_oidc
declared_family app_ldap = some family_ldap
declared_family external_proxy = some family_proxy
declared_family _ = none

pub record Comparison : Type 0 where
  pub agreement : DeclaredAuthAgreement
  pub mechanism : Option DeclaredAuthMechanism
  pub detected : AuthMethod

-- the three loops, each the first declared mechanism of one kind
abbrev pub in_family : Family → DeclaredAuthMechanism → Bool
in_family fam m = elim (declared_family m) [ none ↦ false | some df ↦ same_family df fam ]

abbrev pub beside_family : Family → DeclaredAuthMechanism → Bool
beside_family fam m = elim (declared_family m) [
  | none ↦ false
  | some df ↦ if same_family df fam then false else same_layer (layer_of df) (layer_of fam)
]

abbrev pub other_layer : Family → DeclaredAuthMechanism → Bool
other_layer fam m = elim (declared_family m) [
  | none ↦ false
  | some df ↦ not (same_layer (layer_of df) (layer_of fam))
]

unfoldable pub first_with :
    (DeclaredAuthMechanism → Bool) → List DeclaredAuthMechanism → Option DeclaredAuthMechanism
first_with p [] = none
first_with p (m ∷ ms) = if p m then some m else first_with p ms

abbrev found_as : DeclaredAuthAgreement → DeclaredAuthMechanism → AuthMethod → Comparison
found_as agreement m method = record {
  agreement = agreement;
  mechanism = some m;
  detected = method;
}

abbrev silent : AuthMethod → Comparison
silent method = record { agreement = no_agreement; mechanism = none; detected = method }

-- the outcomes after the first, for a detected method that has a family
unfoldable pub compare_family : Family → AuthMethod → List DeclaredAuthMechanism → Comparison
compare_family fam method declared = elim (first_with (in_family fam) declared) [
  | some m ↦ found_as redundant m method
  | none ↦ elim (first_with (beside_family fam) declared) [
    | some m ↦ found_as conflicts m method
    | none ↦ elim (first_with (other_layer fam) declared) [
      | some m ↦ found_as supplements m method
      | none ↦ silent method
    ]
  ]
]

unfoldable pub compare_declared : AuthMethod → Bool → List DeclaredAuthMechanism → Comparison
compare_declared method would_be_exposed [] = silent unset
compare_declared method would_be_exposed (m ∷ ms) =
    if would_be_exposed then found_as supplies m method else elim (detected_family method) [
      | none ↦ silent method
      | some fam ↦ compare_family fam method (m ∷ ms)
    ]

-- `Compare`
abbrev pub compare_service : Service → Bool → Comparison
compare_service svc would_be_exposed =
    compare_declared svc.auth.method would_be_exposed (declared_auth_mechanisms svc.declared)

-- one turn of the loop of `UnconfirmedMechanisms`
abbrev pub unconfirmed_beside : Option Family → DeclaredAuthMechanism → Bool
unconfirmed_beside seen m = elim (declared_family m) [
  | none ↦ false
  | some df ↦ elim seen [ none ↦ true | some fam ↦ not (same_layer (layer_of df) (layer_of fam)) ]
]

unfoldable pub unconfirmed_of :
    Option Family → List DeclaredAuthMechanism → List DeclaredAuthMechanism
unconfirmed_of seen [] = []
unconfirmed_of seen (m ∷ ms) =
    let rest = unconfirmed_of seen ms in if unconfirmed_beside seen m then m ∷ rest else rest

abbrev pub unconfirmed_mechanisms : Service → List DeclaredAuthMechanism
unconfirmed_mechanisms svc =
    unconfirmed_of (detected_family svc.auth.method) (declared_auth_mechanisms svc.declared)

-- `append` of one entry under a condition
abbrev pub entry_if {ℓ} : {A : Type ℓ} → Bool → A → List A
entry_if b x = if b then x ∷ [] else []

abbrev pub is_conflict : DeclaredAuthAgreement → Bool
is_conflict conflicts = true
is_conflict _ = false

-- drift 3, the loop over the refusals of one service
unfoldable pub refused_entries : Text → List Refusal → List Drift
refused_entries key [] = []
refused_entries key (r ∷ rs) =
    let rest = refused_entries key rs in
    if text_eq r.source key then refused_dependency r.ref ∷ rest else rest

-- drift 4
unfoldable pub mismatch_entries : List IngressKind → List IngressKind → List Drift
mismatch_entries expected detected =
    let missing = (missing_and_unexpected expected detected).0 in
    let unexpected = (missing_and_unexpected expected detected).1 in
    entry_if (not (no_items expected) && (not (no_items missing) || not (no_items unexpected)))
      (ingress_mismatch missing unexpected)

abbrev pub answered_open : Option ServiceProbe → Bool
answered_open none = false
answered_open (some p) = p.answered && not p.gate

abbrev pub would_be_exposed : Service → Bool
would_be_exposed svc = external svc.ingress && not (has_edge_auth svc)

unfoldable pub drift_of : List Refusal → Text → Service → ServiceDeclaration → List Drift
drift_of refused key svc d =
    entry_if (d.unauthenticated_accepted && not (external svc.ingress)) stale_acceptance
    ++ (entry_if (is_conflict (compare_service svc (would_be_exposed svc)).agreement)
          conflicting_mechanism
        ++ (refused_entries key refused ++ mismatch_entries d.expected_ingress svc.ingress))

unfoldable pub unconfirmed_entries : Service → List Unconfirmed
unconfirmed_entries svc =
    let ms = unconfirmed_mechanisms svc in
    entry_if (not (no_items ms)) (uncorroborated ms)
    ++ entry_if
        (is_supplies (compare_service svc (would_be_exposed svc)).agreement
          && answered_open svc.probe)
        no_login_page

abbrev judged : List Refusal → Text → Service → Option ServiceDeclaration
judged refused key svc = elim svc.declared [
  | none ↦ none
  | some d ↦ some (record d {
    auth_agreement = (compare_service svc (would_be_exposed svc)).agreement;
    drift = drift_of refused key svc d;
    unconfirmed = unconfirmed_entries svc;
  })
]

-- the sentence of a comparison that the `switch` adds to the notes
unfoldable pub sentence_of :
    DeclaredAuthAgreement → DeclaredAuthMechanism → AuthMethod → Text → List ServiceNote
sentence_of supplies m method file = note_supplies m file ∷ []
sentence_of supplements m method file = note_supplements m method ∷ []
sentence_of _ m method file = []

unfoldable pub noted : Comparison → Text → List ServiceNote
noted cmp file = elim cmp.mechanism [
  | none ↦ []
  | some m ↦ sentence_of cmp.agreement m cmp.detected file
]

-- what one turn adds to the notes: nothing where nothing is declared
unfoldable pub notes_on : Service → List ServiceNote
notes_on svc = elim svc.declared [
  | none ↦ []
  | some d ↦ noted (compare_service svc (would_be_exposed svc)) d.file
]

-- one turn of the walk of `Apply`
unfoldable pub apply_service : List Refusal → Text → Service → Service
apply_service refused key svc = record svc {
  auth = record (svc.auth) {
    exposed_without_auth = would_be_exposed svc && no_items (declared_auth_mechanisms svc.declared);
  };
  declared = judged refused key svc;
  notes = svc.notes ++ notes_on svc;
}

unfoldable pub apply_services : List Refusal → Text → List Service → List Service
apply_services refused stack [] = []
apply_services refused stack (s ∷ services) =
    apply_service refused (key_of stack s.name) s ∷ apply_services refused stack services

-- `Apply`
unfoldable pub apply : List Refusal → List AppStack → List AppStack
apply refused [] = []
apply refused (s ∷ stacks) =
    record s { services = apply_services refused s.id s.services } ∷ apply refused stacks
