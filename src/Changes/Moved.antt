-- ===== src/Changes/Moved.antt =====
-- internal/changes/changes.go, the integration half: what the two API reads and the connections came
-- back with, and the note that says it.
use labview.Common.{
  ℕ, ◌-◌, leb, Bool, true, false, ◌&&◌, not, List, [], ◌∷◌, ◌++◌, Option, none, some, if◌then◌else◌,
  length, take, no_items,
}
use labview.Common.Text.{Text, text_eq, is_empty, contains, sort_texts, trim_space}
use labview.Common.Map.{Map, lookup, insert}
use labview.Payload.{Service, AppStack, AuthentikApplication}
use labview.Changes.{Delta, deltas, Scanned, ConfigLine, configuration}

pub data Reachability : Type 0 where
  reach_both reach_neither reach_started reach_stopped : Reachability

-- `reach was now first`
abbrev pub reach : Bool → Bool → Bool → Reachability
reach was true true = reach_started
reach was false true = reach_neither
reach false false false = reach_neither
reach false true false = reach_started
reach true false false = reach_stopped
reach true true false = reach_both

pub data Noun : Type 0 where
  application configured withheld recovered provider outpost matched_service : Noun
  router middleware live_service : Noun

pub data Target : Type 0 where
  authentik traefik : Target

-- `list`: how many there are, the names that fit, and how many more
pub record Listing : Type 0 where
  pub total : ℕ
  pub shown : List Text
  pub more : ℕ

pub data Line : Type 0 where
  no_config_changes : Line
  baseline : ℕ → ℕ → Line
  config_line : ConfigLine → Line
  started stopped : Target → Text → Line
  counts : Target → List (Noun × (Bool × ℕ)) → Line
  gained lost : Target → Listing → Line
  is_now : Text → Text → Text → Text → Line

pub record AuthentikSummary : Type 0 where
  pub reachable : Bool
  pub endpoint : Text
  pub error : Text
  pub applications : ℕ
  pub applications_configured : Option ℕ
  pub applications_withheld : ℕ
  pub applications_recovered : ℕ
  pub providers : ℕ
  pub outposts : ℕ
  pub matched_services : ℕ
  pub unmatched : List AuthentikApplication

pub record TraefikSummary : Type 0 where
  pub reachable : Bool
  pub endpoint : Text
  pub error : Text
  pub routers : ℕ
  pub middlewares : ℕ
  pub services : ℕ
  pub matched_services : ℕ
  pub unmatched : List Text

pub record ConnectionReport : Type 0 where
  pub target : Text
  pub ok : Bool
  pub phase : Text
  pub endpoint : Text
  pub detail : Text

pub record Overview : Type 0 where
  pub scanned : Scanned
  pub authentik : Option AuthentikSummary
  pub traefik : Option TraefikSummary
  pub connections : List ConnectionReport

-- `record`
unfoldable pub record_name : Text → Text → Text
record_name slug name = if not (is_empty (trim_space slug)) then slug else name

unfoldable pub dedupe : List Text → List Text
dedupe [] = []
dedupe (x ∷ []) = x ∷ []
dedupe (x ∷ y ∷ xs) = let rest = dedupe (y ∷ xs) in if text_eq y x then rest else x ∷ rest

abbrev pub application_names : List AuthentikApplication → List Text
application_names [] = []
application_names (a ∷ apps) = record_name a.slug a.name ∷ application_names apps

abbrev pub over_services : (Service → List Text) → List Service → List Text
over_services f [] = []
over_services f (s ∷ services) = f s ++ over_services f services

abbrev pub over_stacks : (Service → List Text) → List AppStack → List Text
over_stacks f [] = []
over_stacks f (s ∷ stacks) = over_services f s.services ++ over_stacks f stacks

-- `applications`
unfoldable pub applications_of : Overview → List Text
applications_of out = dedupe (
    sort_texts (
      elim out.authentik [ none ↦ [] | some s ↦ application_names s.unmatched ]
      ++ over_stacks (λ svc. application_names svc.authentik) out.scanned.stacks))

-- `routers`
unfoldable pub routers_of : Overview → List Text
routers_of out = dedupe (
    sort_texts (
      elim out.traefik [ none ↦ [] | some s ↦ s.unmatched ]
      ++ over_stacks (λ svc. svc.traefik_live) out.scanned.stacks))

-- one loop of `names`: those of a list that another does not hold
unfoldable pub without_names : List Text → List Text → List Text
without_names others [] = []
without_names others (x ∷ xs) =
    let rest = without_names others xs in if contains x others then rest else x ∷ rest

-- `names`
unfoldable pub names_moved : List Text → List Text → List Text × List Text
names_moved was now = (dedupe (without_names was now), dedupe (without_names now was))

abbrev pub max_names : ℕ
max_names = 12

unfoldable pub list_names : List Text → Listing
list_names names =
    if leb (length names) max_names
    then record { total = length names; shown = names; more = 0 }
    else record {
      total = length names;
      shown = take max_names names;
      more = length names - max_names;
    }

abbrev pub line_if : List Text → (Listing → Line) → List Line
line_if [] line = []
line_if (x ∷ xs) line = line (list_names (x ∷ xs)) ∷ []

abbrev counts_if : Target → List (Noun × (Bool × ℕ)) → List Line
counts_if t [] = []
counts_if t (d ∷ ds) = counts t (d ∷ ds) ∷ []

-- the end of both halves
abbrev pub moved_lines : Target → List (Delta Noun) → List Text × List Text → List Line
moved_lines t ds names =
    counts_if t (deltas ds) ++ (line_if names.0 (gained t) ++ line_if names.1 (lost t))

abbrev delta : Noun → ℕ → ℕ → Delta Noun
delta noun was now = record { noun = noun; was = was; now = now; absent = false }

abbrev configured_delta : Option ℕ → Option ℕ → Delta Noun
configured_delta (some was) (some now) = delta configured was now
configured_delta _ _ = record { noun = configured; was = 0; now = 0; absent = true }

abbrev pub authentik_deltas : AuthentikSummary → AuthentikSummary → List (Delta Noun)
authentik_deltas was now =
    delta application was.applications now.applications
    ∷ configured_delta was.applications_configured now.applications_configured
    ∷ delta withheld was.applications_withheld now.applications_withheld
    ∷ delta recovered was.applications_recovered now.applications_recovered
    ∷ delta provider was.providers now.providers
    ∷ delta outpost was.outposts now.outposts
    ∷ delta matched_service was.matched_services now.matched_services
    ∷ []

abbrev pub traefik_deltas : TraefikSummary → TraefikSummary → List (Delta Noun)
traefik_deltas was now =
    delta router was.routers now.routers
    ∷ delta middleware was.middlewares now.middlewares
    ∷ delta live_service was.services now.services
    ∷ delta matched_service was.matched_services now.matched_services
    ∷ []

abbrev answered_before {ℓ} : {S : Type ℓ} → (S → Bool) → Option S → Bool
answered_before reachable none = false
answered_before reachable (some s) = reachable s

abbrev previous_of {ℓ} : {S : Type ℓ} → (Overview → Option S) → Option Overview → Option S
previous_of f none = none
previous_of f (some prev) = f prev

abbrev is_first : Option Overview → Bool
is_first none = true
is_first (some prev) = false

-- `because`, whose empty text is nothing said
abbrev because : Text → Text
because detail = if is_empty (trim_space detail) then [] else detail

-- what is compared where both sides were read; there is a previous side then
abbrev compared {ℓ} :
    {S : Type ℓ}
    → Target
    → Option Overview
    → Option S
    → Overview
    → S
    → (S → S → List (Delta Noun))
    → (Overview → List Text)
    → List Line
compared t (some prev) (some was) next now ds names =
    moved_lines t (ds was now) (names_moved (names prev) (names next))
compared t _ _ next now ds names = []

-- `identity`
unfoldable pub identity_lines : Option Overview → Overview → List Line
identity_lines prev next = elim next.authentik [
  | none ↦ []
  | some now ↦
      let was = previous_of (λ o. o.authentik) prev in
      elim (reach (answered_before (λ s. s.reachable) was) now.reachable (is_first prev)) [
        | reach_neither ↦ []
        | reach_started ↦ started authentik now.endpoint ∷ []
        | reach_stopped ↦ stopped authentik (because now.error) ∷ []
        | reach_both ↦ compared authentik prev was next now authentik_deltas applications_of
      ]
]

-- `proxy`
unfoldable pub proxy_lines : Option Overview → Overview → List Line
proxy_lines prev next = elim next.traefik [
  | none ↦ []
  | some now ↦
      let was = previous_of (λ o. o.traefik) prev in
      elim (reach (answered_before (λ s. s.reachable) was) now.reachable (is_first prev)) [
        | reach_neither ↦ []
        | reach_started ↦ started traefik now.endpoint ∷ []
        | reach_stopped ↦ stopped traefik (because now.error) ∷ []
        | reach_both ↦ compared traefik prev was next now traefik_deltas routers_of
      ]
]

abbrev same_flag : Bool → Bool → Bool
same_flag true b = b
same_flag false b = not b

-- `conn.Same`
abbrev pub same_report : ConnectionReport → ConnectionReport → Bool
same_report a b =
    text_eq a.target b.target
    && (same_flag a.ok b.ok && (text_eq a.phase b.phase && text_eq a.endpoint b.endpoint))

unfoldable pub by_target : List ConnectionReport → Map ConnectionReport → Map ConnectionReport
by_target [] before = before
by_target (r ∷ reports) before = by_target reports (insert r.target r before)

unfoldable pub moved_reports : Map ConnectionReport → List ConnectionReport → List Line
moved_reports before [] = []
moved_reports before (now ∷ reports) =
    let rest = moved_reports before reports in
    elim (lookup now.target before) [
      | none ↦ rest
      | some was ↦
          if same_report was now
          then rest
          else is_now now.target now.phase (because now.endpoint) (because now.detail) ∷ rest
    ]

-- `connections`
unfoldable pub connection_lines : Option Overview → Overview → List Line
connection_lines none next = []
connection_lines (some prev) next = moved_reports (by_target prev.connections []) next.connections

-- `integration`
unfoldable pub integration : Option Overview → Overview → List Line
integration prev next =
    identity_lines prev next ++ (proxy_lines prev next ++ connection_lines prev next)

-- a note; its baseline is the counts of stacks and services
pub record Note : Type 0 where
  pub first : Option (ℕ × ℕ)
  pub config : List ConfigLine
  pub integrated : List Line

unfoldable pub describe : (AppStack → Text) → Option Overview → Overview → Note
describe digest none next = record {
  first = some (next.scanned.stack_total, next.scanned.service_sum);
  config = [];
  integrated = integration none next;
}
describe digest (some prev) next = record {
  first = none;
  config = configuration digest prev.scanned next.scanned;
  integrated = integration (some prev) next;
}

unfoldable pub quiet : Note → Bool
quiet n = elim n.first [ some b ↦ false | none ↦ no_items n.config && no_items n.integrated ]

abbrev config_lines : List ConfigLine → List Line
config_lines [] = []
config_lines (l ∷ ls) = config_line l ∷ config_lines ls

-- `Lines`
unfoldable pub lines : Note → List Line
lines n = elim n.first [
  | some (stacks, services) ↦ baseline stacks services ∷ n.integrated
  | none ↦
      if no_items n.config && no_items n.integrated
      then []
      else if no_items n.config
      then no_config_changes ∷ n.integrated
      else config_lines n.config ++ n.integrated
]
