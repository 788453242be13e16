-- ===== src/Changes.antt =====
-- internal/changes/changes.go: what moved between two scans.
--
-- A line is what it says, without the prose. `json.Marshal` and SHA-256 are one argument, `digest`. A
-- difference of counters is its sign and its size.

pub mod Stripped
pub mod Compared
pub mod Quiet
pub mod Moved
pub mod Named
mod Tests
use labview.Common.{
  ℕ, ◌+◌, ◌-◌, ◌==◌, ltb, leb, Bool, true, false, ◌&&◌, ◌||◌, not, List, [], ◌∷◌, ◌++◌, Option,
  none, some, if◌then◌else◌, length, take, no_items,
}
use labview.Common.Text.{Text, text_eq, is_empty, contains, sort_texts, trim_space}
use labview.Common.Map.{Map, lookup, insert, keys}
use labview.Payload.{
  Service, AppStack, CloudflareRoute, ServiceDeclaration, AuthentikApplication, unset, no_agreement,
}

-- `withoutOrigins`
unfoldable pub without_origins : List CloudflareRoute → List CloudflareRoute
without_origins [] = []
without_origins (r ∷ routes) = record r { origin = none } ∷ without_origins routes

-- `withoutVerdicts`
abbrev pub without_verdicts : Option ServiceDeclaration → Option ServiceDeclaration
without_verdicts none = none
without_verdicts (some d) =
    some (record d { drift = []; unconfirmed = []; auth_agreement = no_agreement })

unfoldable pub strip_service : Service → Service
strip_service svc = record svc {
  docker = none;
  authentik = [];
  traefik_live = [];
  ingress = [];
  auth = record { method = unset; exposed_without_auth = false };
  notes = [];
  cloudflare = without_origins svc.cloudflare;
  probe = none;
  declared = without_verdicts svc.declared;
}

unfoldable pub strip_services : List Service → List Service
strip_services [] = []
strip_services (s ∷ services) = strip_service s ∷ strip_services services

unfoldable pub strip : AppStack → AppStack
strip stack = record stack { services = strip_services stack.services }

-- `fingerprints`, with `Fingerprint`
unfoldable pub fingerprints_into : (AppStack → Text) → List AppStack → Map Text → Map Text
fingerprints_into digest [] fps = fps
fingerprints_into digest (s ∷ stacks) fps =
    fingerprints_into digest stacks (insert s.id (digest (strip s)) fps)

unfoldable pub fingerprints : (AppStack → Text) → List AppStack → Map Text
fingerprints digest stacks = fingerprints_into digest stacks []

-- the value of a key, the empty text where it is missing
abbrev pub or_empty : Option Text → Text
or_empty none = []
or_empty (some s) = s

abbrev pub value_at : Map Text → Text → Text
value_at fps id = or_empty (lookup id fps)

-- the two loops, over the sorted identifiers
unfoldable pub missing_ids : Map Text → List Text → List Text
missing_ids before [] = []
missing_ids before (id ∷ ids) =
    let rest = missing_ids before ids in if is_empty (value_at before id) then id ∷ rest else rest

unfoldable pub changed_ids : Map Text → Map Text → List Text → List Text
changed_ids before after [] = []
changed_ids before after (id ∷ ids) =
    let rest = changed_ids before after ids in
    if is_empty (value_at before id)
    then rest
    else if not (text_eq (value_at before id) (value_at after id))
    then id ∷ rest
    else rest

-- `serviceCount`
unfoldable pub service_count : List AppStack → Text → ℕ
service_count [] id = 0
service_count (s ∷ stacks) id =
    if text_eq s.id id then length s.services else service_count stacks id

-- `signed`: whether the counter went up, and by how much
abbrev pub signed : ℕ → ℕ → Bool × ℕ
signed was now = if ltb now was then (false, was - now) else (true, now - was)

-- one counter of `deltas`, named by a noun
pub record Delta (N : Type 0) : Type 0 where
  pub noun : N
  pub was : ℕ
  pub now : ℕ
  pub absent : Bool

unfoldable pub deltas : {N : Type 0} → List (Delta N) → List (N × (Bool × ℕ))
deltas [] = []
deltas (d ∷ ds) =
    let rest = deltas ds in
    if d.absent || (d.now == d.was) then rest else (d.noun, signed d.was d.now) ∷ rest

pub data Counter : Type 0 where
  stack_count service_total : Counter

-- the movement of the service count is nothing where it did not move
pub data ConfigLine : Type 0 where
  headline : List (Counter × (Bool × ℕ)) → ConfigLine
  added removed : Text → ℕ → ConfigLine
  changed : Text → List (Counter × (Bool × ℕ)) → ConfigLine
  not_listed : ℕ → ConfigLine

abbrev pub max_stack_lines : ℕ
max_stack_lines = 12

-- `capped`; the last line says how many were dropped
unfoldable pub capped : List ConfigLine → ℕ → List ConfigLine
capped lines limit =
    if leb (length lines) limit
    then lines
    else take limit lines ++ not_listed (length lines - limit) ∷ []

-- what the diff reads of a payload
pub record Scanned : Type 0 where
  pub stacks : List AppStack
  pub stack_total : ℕ
  pub service_sum : ℕ

abbrev pub added_lines : List AppStack → List Text → List ConfigLine
added_lines next [] = []
added_lines next (id ∷ ids) = added id (service_count next id) ∷ added_lines next ids

abbrev pub removed_lines : List AppStack → List Text → List ConfigLine
removed_lines prev [] = []
removed_lines prev (id ∷ ids) = removed id (service_count prev id) ∷ removed_lines prev ids

-- `servicesMoved`
abbrev pub services_moved : List AppStack → List AppStack → Text → List (Counter × (Bool × ℕ))
services_moved prev next id = deltas (
    record {
      noun = service_total;
      was = service_count prev id;
      now = service_count next id;
      absent = false;
    }
    ∷ [])

abbrev pub changed_lines : List AppStack → List AppStack → List Text → List ConfigLine
changed_lines prev next [] = []
changed_lines prev next (id ∷ ids) =
    changed id (services_moved prev next id) ∷ changed_lines prev next ids

abbrev headlines : List (Counter × (Bool × ℕ)) → List ConfigLine
headlines [] = []
headlines (d ∷ ds) = headline (d ∷ ds) ∷ []

abbrev totals : Scanned → Scanned → List (Counter × (Bool × ℕ))
totals prev next = deltas (
    record { noun = stack_count; was = prev.stack_total; now = next.stack_total; absent = false }
    ∷ record {
      noun = service_total;
      was = prev.service_sum;
      now = next.service_sum;
      absent = false;
    }
    ∷ [])

-- `configuration`
unfoldable pub configuration : (AppStack → Text) → Scanned → Scanned → List ConfigLine
configuration digest prev next =
    let before = fingerprints digest prev.stacks in
    let after = fingerprints digest next.stacks in
    let new_ids = missing_ids before (sort_texts (keys after)) in
    let edited = changed_ids before after (sort_texts (keys after)) in
    let gone = missing_ids after (sort_texts (keys before)) in
    if no_items new_ids && no_items gone && no_items edited
    then []
    else headlines (totals prev next)
      ++ capped
          (added_lines next.stacks new_ids
            ++ (removed_lines prev.stacks gone ++ changed_lines prev.stacks next.stacks edited))
          max_stack_lines
