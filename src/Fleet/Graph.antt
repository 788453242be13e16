-- ===== src/Fleet/Graph.antt =====
-- internal/fleet/graph.go: what crosses a service's connection to a network, and the edges of networks
-- and dependencies. The nodes, the volumes, the paths of ingress and the gates are left out.

pub mod Legs
use labview.Common.{
  Bool, true, false, ◌&&◌, ◌||◌, not, List, [], ◌∷◌, ◌++◌, Option, none, some, if◌then◌else◌,
}
use labview.Common.Text.{Text, codes, text_eq, contains}
use labview.Common.Map.{lookup}
use labview.Fleet.Networks.{Networks, drawn, of}
use labview.Fleet.Depends.{Dependency, declared_only}

pub data EdgeFlow : Type 0 where
  flow_both flow_to_network flow_to_service : EdgeFlow

pub data EdgeFlowSource : Type 0 where
  source_both source_declared source_observed : EdgeFlowSource

-- the four flags of the loop of `leg`
pub record Crossing : Type 0 where
  pub outward : Bool
  pub inward : Bool
  pub observed : Bool
  pub declared : Bool

abbrev pub nothing_crosses : Crossing
nothing_crosses = record { outward = false; inward = false; observed = false; declared = false }

-- one turn of it
unfoldable pub cross : Text → Text → Dependency → Crossing → Crossing
cross key network d c =
    if not (contains network d.via)
    then c
    else if text_eq d.source key
    then record c {
      outward = true;
      observed = c.observed || d.observed;
      declared = c.declared || d.declared;
    }
    else if text_eq d.target key
    then record c {
      inward = true;
      observed = c.observed || d.observed;
      declared = c.declared || d.declared;
    }
    else c

unfoldable pub cross_all : Text → Text → List Dependency → Crossing → Crossing
cross_all key network [] c = c
cross_all key network (d ∷ ds) c = cross_all key network ds (cross key network d c)

abbrev pub flow_of : Crossing → Option EdgeFlow
flow_of c =
    if c.outward && c.inward
    then some flow_both
    else if c.outward
    then some flow_to_network
    else if c.inward
    then some flow_to_service
    else none

abbrev pub flow_source_of : Crossing → EdgeFlowSource
flow_source_of c =
    if c.observed && c.declared
    then source_both
    else if c.declared
    then source_declared
    else source_observed

-- `leg`: nothing where nothing crosses
unfoldable pub leg : List Dependency → Text → Text → Option (EdgeFlow × EdgeFlowSource)
leg resolved key network =
    let c = cross_all key network resolved nothing_crosses in
    elim (flow_of c) [ none ↦ none | some flow ↦ some (flow, flow_source_of c) ]

pub record NetworkEdge : Type 0 where
  pub service : Text
  pub network : Text
  pub crossing : Option (EdgeFlow × EdgeFlowSource)

-- the loops of `membershipEdges`; each name of a service is in the index, once
unfoldable pub edges_of : List Dependency → Networks → Text → List Text → List NetworkEdge
edges_of resolved nets key [] = []
edges_of resolved nets key (name ∷ names) =
    let rest = edges_of resolved nets key names in
    elim (lookup name nets.by_name) [
      | none ↦ rest
      | some net ↦
          if not (drawn net)
          then rest
          else record { service = key; network = name; crossing = leg resolved key name } ∷ rest
    ]

unfoldable pub membership_edges : List Dependency → Networks → List Text → List NetworkEdge
membership_edges resolved nets [] = []
membership_edges resolved nets (key ∷ keys) =
    edges_of resolved nets key (of nets key) ++ membership_edges resolved nets keys

pub record DependencyEdge : Type 0 where
  pub source : Text
  pub target : Text
  pub via : List Text
  pub declared_by : Option (Text × Text)

-- `dependencyEdges`; the pairs differ, so no edge repeats
unfoldable pub dependency_edges : List Dependency → List DependencyEdge
dependency_edges [] = []
dependency_edges (d ∷ ds) =
    record {
      source = d.source;
      target = d.target;
      via = d.via;
      declared_by = if declared_only d then some (d.file, d.detail) else none;
    }
    ∷ dependency_edges ds
