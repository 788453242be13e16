-- ===== src/Fleet/Depends.antt =====
-- internal/fleet/depends.go: which service depends on which, and what could not be resolved.
--
-- The map `at` from the names of pairs to positions is a search of what is resolved. The index
-- (index.go) is the list of visits, where the last of those with one key is the one that counts.
-- Notes, which are prose for a reader, are left out; a refusal's reason is its kind.

pub mod Resolved
pub mod Merged
mod Tests
use labview.Common.{
  ℕ, Bool, true, false, ◌&&◌, ◌||◌, not, List, [], ◌∷◌, ◌++◌, Option, none, some, if◌then◌else◌,
  length,
}
use labview.Common.Text.{Text, text_eq, is_empty, contains, cut_byte}
use labview.Payload.{AppStack, Service, ServiceDeclaration, DeclaredServiceDependency}
use labview.Fleet.{Visit, each, key_of, split_key}
use labview.Fleet.Networks.{Networks, shared}

pub record Dependency : Type 0 where
  pub source : Text
  pub target : Text
  pub via : List Text
  pub observed : Bool
  pub declared : Bool
  pub file : Text
  pub detail : Text

abbrev pub declared_only : Dependency → Bool
declared_only d = d.declared && not d.observed

pub data Reason : Type 0 where
  itself : Reason
  unknown : Reason
  ambiguous : ℕ → Reason

pub record Refusal : Type 0 where
  pub source : Text
  pub ref : Text
  pub file : Text
  pub reason : Reason
  pub considered : List Text

pub record Deps : Type 0 where
  pub resolved : List Dependency
  pub refused : List Refusal

-- The index's keys, and `InStack` over the services of the stacks.
unfoldable pub index_keys : List Visit → List Text
index_keys [] = []
index_keys (v ∷ vs) = v.key ∷ index_keys vs

unfoldable pub in_stack : List Visit → Text → Text → Option Text
in_stack [] stack name = none
in_stack (v ∷ vs) stack name = elim (in_stack vs stack name) [
  | some key ↦ some key
  | none ↦ if text_eq v.stack stack && text_eq v.service.name name then some v.key else none
]

-- `Service`
unfoldable pub service_at : List Visit → Text → Option Service
service_at [] key = none
service_at (v ∷ vs) key = elim (service_at vs key) [
  | some svc ↦ some svc
  | none ↦ if text_eq v.key key then some v.service else none
]

-- `cutRef`: nothing for a reference that is not qualified.
unfoldable pub cut_ref : Text → Option (Text × Text)
cut_ref ref = elim (cut_byte b'/' ref) [
  | none ↦ none
  | some (stack, name) ↦
      if not (is_empty stack) && not (is_empty name) then some (stack, name) else none
]

-- the loop that gathers candidates in the whole fleet
unfoldable pub candidates : Text → Text → List Text → List Text
candidates source ref [] = []
candidates source ref (key ∷ keys) =
    let rest = candidates source ref keys in
    if text_eq (split_key key).1 ref && not (text_eq key source) then key ∷ rest else rest

pub data Resolution : Type 0 where
  resolved_to : Text → Resolution
  not_resolved : Reason → List Text → Resolution

unfoldable pub choose : List Text → Resolution
choose [] = not_resolved unknown []
choose (key ∷ []) = resolved_to key
choose (key ∷ other ∷ keys) =
    not_resolved (ambiguous (length (key ∷ other ∷ keys))) (key ∷ other ∷ keys)

unfoldable pub resolve_ref : List Visit → Text → Text → Text → Resolution
resolve_ref vs source stack ref = elim (cut_ref ref) [
  | some (other, name) ↦
      let key = key_of other name in
      if text_eq key source
      then not_resolved itself []
      else if not (contains key (index_keys vs))
      then not_resolved unknown []
      else resolved_to key
  | none ↦ elim (in_stack vs stack ref) [
    | some key ↦ if text_eq key source then not_resolved itself [] else resolved_to key
    | none ↦ choose (candidates source ref (index_keys vs))
  ]
]

-- `d.From + "→" + d.To`, the arrow as its three bytes
abbrev pub pair_of : Dependency → Text
pair_of d = d.source ++ 226 ∷ 134 ∷ 146 ∷ d.target

-- what `add` writes to the entry of a pair that is there
abbrev pub merge : Dependency → Dependency → Dependency
merge existing d = record existing {
  observed = existing.observed || d.observed;
  declared = existing.declared || d.declared;
  detail = if is_empty existing.detail then d.detail else existing.detail;
  file = if is_empty existing.detail then d.file else existing.file;
}

unfoldable pub add_resolved : Dependency → List Dependency → List Dependency
add_resolved d [] = d ∷ []
add_resolved d (e ∷ es) =
    if text_eq (pair_of e) (pair_of d) then merge e d ∷ es else e ∷ add_resolved d es

-- `add`
unfoldable pub add : Networks → Dependency → Deps → Deps
add nets d deps = record deps {
  resolved = add_resolved (record d { via = shared nets d.source d.target }) deps.resolved;
}

abbrev pub observed_edge : Text → Text → Dependency
observed_edge source target = record {
  source = source;
  target = target;
  via = [];
  observed = true;
  declared = false;
  file = [];
  detail = [];
}

abbrev pub declared_edge : Text → Text → Text → Text → Dependency
declared_edge source target file detail = record {
  source = source;
  target = target;
  via = [];
  observed = false;
  declared = true;
  file = file;
  detail = detail;
}

module _ (vs : List Visit) (nets : Networks) where
  -- the loop over a service's compose `depends_on`
  unfoldable pub compose_edges : Text → Text → List Text → Deps → Deps
  compose_edges key stack [] deps = deps
  compose_edges key stack (name ∷ names) deps =
      compose_edges key stack names (elim (in_stack vs stack name) [
        | none ↦ deps
        | some to ↦ if text_eq to key then deps else add nets (observed_edge key to) deps
      ])

  -- the loop over its declared references
  unfoldable pub declared_edges : Text → Text → Text → List DeclaredServiceDependency → Deps → Deps
  declared_edges key stack file [] deps = deps
  declared_edges key stack file (r ∷ refs) deps =
      declared_edges key stack file refs (elim (resolve_ref vs key stack r.ref) [
        | not_resolved reason considered ↦ record deps {
          refused =
              deps.refused
              ++ record {
                source = key;
                ref = r.ref;
                file = file;
                reason = reason;
                considered = considered;
              }
                ∷ [];
        }
        | resolved_to to ↦ add nets (declared_edge key to file r.detail) deps
      ])

  unfoldable pub declaration_edges : Text → Option ServiceDeclaration → Deps → Deps
  declaration_edges key none deps = deps
  declaration_edges key (some d) deps =
      declared_edges key (split_key key).0 d.file d.depends_on deps

  -- the loop over the keys; each is found, since the keys are those of the visits
  unfoldable pub all_edges : List Text → Deps → Deps
  all_edges [] deps = deps
  all_edges (key ∷ keys) deps = all_edges keys (elim (service_at vs key) [
    | none ↦ deps
    | some svc ↦
        declaration_edges key svc.declared (compose_edges key (split_key key).0 svc.depends_on deps)
  ])

unfoldable pub dependencies : List AppStack → Networks → Deps
dependencies stacks nets =
    all_edges (each stacks) nets (index_keys (each stacks)) (record { resolved = []; refused = [] })
