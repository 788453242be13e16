-- ===== src/Fleet/Networks.antt =====
-- internal/fleet/networks.go: which service is on which network, in one index.
--
-- The pointers of `byName` are the values of the map: nothing else holds them while it is built.

pub mod Members
pub mod Neighbours
mod Tests
use labview.Common.{
  ℕ, Bool, true, false, ◌&&◌, ◌||◌, not, List, [], ◌∷◌, ◌++◌, Option, none, some, leb, ltb, ◌==◌,
  if◌then◌else◌, length,
}
use labview.Common.Text.{Text, text_eq, is_empty, contains, append_once}
use labview.Common.Map.{Map, lookup, insert}
use labview.Payload.{AppStack, NetworkDecl, Service}
use labview.Fleet.{Visit, each}

pub record Network : Type 0 where
  pub name : Text
  pub members : List Text
  pub stacks : List Text
  pub external : Bool

pub data NetworkScope : Type 0 where
  scope_external scope_stack_local : NetworkScope

abbrev pub scope : Network → NetworkScope
scope n = if n.external then scope_external else scope_stack_local

abbrev pub connecting : Network → Bool
connecting n = leb 2 (length n.members)

abbrev pub cross_stack : Network → Bool
cross_stack n = leb 2 (length n.stacks)

abbrev pub solo_local : Network → Bool
solo_local n = not n.external && (length n.members == 1)

abbrev pub drawn : Network → Bool
drawn n = not (solo_local n)

pub record Networks : Type 0 where
  pub order : List Text
  pub by_name : Map Network
  pub by_service : Map (List Text)

abbrev pub empty : Networks
empty = record { order = []; by_name = []; by_service = [] }

-- the map `external`, as its membership test
abbrev declares : Text → List NetworkDecl → Bool
declares name [] = false
declares name (d ∷ decls) = (d.external && text_eq d.name name) || declares name decls

abbrev pub declared_external : List AppStack → Text → Bool
declared_external [] name = false
declared_external (s ∷ stacks) name =
    declares name s.declared_networks || declared_external stacks name

-- a nil slice where the key is missing
abbrev pub or_nil : Option (List Text) → List Text
or_nil none = []
or_nil (some xs) = xs

-- `Of`
unfoldable pub of : Networks → Text → List Text
of idx key = or_nil (lookup key idx.by_service)

abbrev pub members_or_nil : Option Network → List Text
members_or_nil none = []
members_or_nil (some n) = n.members

-- `idx.byName[name].Members`
unfoldable pub members_of : Networks → Text → List Text
members_of idx name = members_or_nil (lookup name idx.by_name)

-- one turn of the innermost loop of `NewNetworks`
unfoldable pub join : (Text → Bool) → Visit → Text → Networks → Networks
join external v name idx =
    if is_empty name
    then idx
    else let found : Network × List Text = elim (lookup name idx.by_name) [
      | none ↦ (
        record { name = name; members = []; stacks = []; external = external name },
        idx.order ++ name ∷ [],
      )
      | some net ↦ (net, idx.order)
    ] in
      record {
        order = found.1;
        by_name =
            insert name
              (record found.0 {
                members = append_once found.0.members v.key;
                stacks = append_once found.0.stacks v.stack;
              })
              idx.by_name;
        by_service = insert v.key (append_once (of idx v.key) name) idx.by_service;
      }

unfoldable pub join_all : (Text → Bool) → Visit → List Text → Networks → Networks
join_all external v [] idx = idx
join_all external v (name ∷ names) idx = join_all external v names (join external v name idx)

unfoldable pub join_each : (Text → Bool) → List Visit → Networks → Networks
join_each external [] idx = idx
join_each external (v ∷ vs) idx = join_each external vs (join_all external v v.service.networks idx)

unfoldable pub new_networks : List AppStack → Networks
new_networks stacks = join_each (declared_external stacks) (each stacks) empty

-- the loop of `Shared`
unfoldable pub common : List Text → List Text → List Text
common [] theirs = []
common (name ∷ names) theirs =
    let rest = common names theirs in if contains name theirs then name ∷ rest else rest

unfoldable pub shared : Networks → Text → Text → List Text
shared idx a b = if text_eq a b then [] else common (of idx a) (of idx b)

abbrev pub no_names : List Text → Bool
no_names [] = true
no_names (x ∷ xs) = false

unfoldable pub shares_any : Networks → Text → Text → Bool
shares_any idx a b = not (no_names (shared idx a b))

-- the loops of `Neighbours`
unfoldable pub add_others : Text → List Text → List Text → List Text
add_others key [] out = out
add_others key (member ∷ members) out =
    add_others key members (if not (text_eq member key) then append_once out member else out)

unfoldable pub neighbours_on : Networks → Text → List Text → List Text → List Text
neighbours_on idx key [] out = out
neighbours_on idx key (name ∷ names) out =
    neighbours_on idx key names (add_others key (members_of idx name) out)

unfoldable pub neighbours : Networks → Text → List Text
neighbours idx key = neighbours_on idx key (of idx key) []

-- the loop of `HasNeighbour`
unfoldable pub any_crowded : Networks → List Text → Bool
any_crowded idx [] = false
any_crowded idx (name ∷ names) =
    if ltb 1 (length (members_of idx name)) then true else any_crowded idx names

unfoldable pub has_neighbour : Networks → Text → Bool
has_neighbour idx key = any_crowded idx (of idx key)
