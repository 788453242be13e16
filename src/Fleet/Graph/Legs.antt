-- ===== src/Fleet/Graph/Legs.antt =====
-- When an arrowhead is drawn on a connection to a network (graph.go, `leg`).
use labview.Common.{◌≡◌, Bool, false, ◌&&◌, ◌||◌, not, List, [], ◌∷◌, none, some, arith}
use labview.Common.Text.{Text, text_eq, contains}
use labview.Fleet.Depends.{Dependency}
use labview.Fleet.Graph.{Crossing, flow_of, flow_source_of, cross, cross_all, nothing_crosses, leg}

-- Whether some dependency that passes a test crosses a network.
unfoldable pub some_via : (Dependency → Bool) → Text → List Dependency → Bool
some_via p network [] = false
some_via p network (d ∷ ds) = (contains network d.via && p d) || some_via p network ds

abbrev pub touches : Text → Dependency → Bool
touches key d = text_eq d.source key || text_eq d.target key

-- The flags, each as a search of the dependencies.
abbrev pub crossing_of : List Dependency → Text → Text → Crossing
crossing_of ds key network = record {
  outward = some_via (λ d. text_eq d.source key) network ds;
  inward = some_via (λ d. not (text_eq d.source key) && text_eq d.target key) network ds;
  observed = some_via (λ d. touches key d && d.observed) network ds;
  declared = some_via (λ d. touches key d && d.declared) network ds;
}

-- One set of flags beside another.
abbrev both : Crossing → Crossing → Crossing
both a b = record {
  outward = a.outward || b.outward;
  inward = a.inward || b.inward;
  observed = a.observed || b.observed;
  declared = a.declared || b.declared;
}

record IsSum (c a b : Crossing) : Type 0 where
  sum_outward : c.outward ≡ (both a b).outward
  sum_inward : c.inward ≡ (both a b).inward
  sum_observed : c.observed ≡ (both a b).observed
  sum_declared : c.declared ≡ (both a b).declared

cross_all-IsSum :
    (key network : Text) (ds : List Dependency) (c : Crossing)
    → IsSum (cross_all key network ds c) c (crossing_of ds key network)
unfolding cross_all some_via cross
cross_all-IsSum key network [] c = record {
  sum_outward = ground arith;
  sum_inward = ground arith;
  sum_observed = ground arith;
  sum_declared = ground arith;
}
cross_all-IsSum key network (d ∷ ds) c =
    let s = cross_all-IsSum key network ds (cross key network d c) in
    record {
      sum_outward = ground (arith, s.sum_outward);
      sum_inward = ground (arith, s.sum_inward);
      sum_observed = ground (arith, s.sum_observed);
      sum_declared = ground (arith, s.sum_declared);
    }

-- The loop leaves the four searches.
cross_all-crossing_of :
    (key network : Text) (ds : List Dependency)
    → cross_all key network ds nothing_crosses ≡ crossing_of ds key network
cross_all-crossing_of key network ds =
    let s = cross_all-IsSum key network ds nothing_crosses in
    λ i. record {
      outward = s.sum_outward i;
      inward = s.sum_inward i;
      observed = s.sum_observed i;
      declared = s.sum_declared i;
    }

-- What crosses a connection is settled by four searches of the resolved dependencies, among those whose
-- networks hold this one: for one that starts here, for one that ends here and starts elsewhere, and
-- among both for one that was observed and for one that was declared.
pub leg-crossing_of :
    (ds : List Dependency) (key network : Text)
    → leg ds key network ≡ elim (flow_of (crossing_of ds key network)) [
      | none ↦ none
      | some flow ↦ some (flow, flow_source_of (crossing_of ds key network))
    ]
unfolding leg
leg-crossing_of ds key network = λ i.
    let c = cross_all-crossing_of key network ds i in
    elim (flow_of c) [ none ↦ none | some flow ↦ some (flow, flow_source_of c) ]
