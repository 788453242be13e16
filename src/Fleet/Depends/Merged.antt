-- ===== src/Fleet/Depends/Merged.antt =====
-- What the dependency relation promises of its edges (depends.go).
use labview.Common.{
  ◌≡◌, refl, true, false, ◌||◌, List, [], ◌∷◌, some, arith, Bool-cases, Option-cases, inl, inr, All,
}
use labview.Common.Text.{
  Text, text_eq, text_eq_iff, text_eq_refl, contains, Distinct, Distinct-append_once,
}
use labview.Payload.{Service, AppStack, DeclaredServiceDependency, ServiceDeclaration}
use labview.Fleet.{Visit, each, split_key}
use labview.Fleet.Networks.{Networks, shared}
use labview.Fleet.Depends.{
  Dependency, Deps, resolved_to, index_keys, in_stack, resolve_ref, pair_of, merge, add_resolved,
  add, observed_edge, declared_edge, compose_edges, declared_edges, declaration_edges, service_at,
  all_edges, dependencies,
}
use labview.Fleet.Depends.Resolved.{
  in_stack-contains, Resolution-cases, resolve_ref_sound, pairs, pairs-add_resolved, refs_of,
  contains-head, contains-tail, Within,
}

module _ (vs : List Visit) (nets : Networks) where
  -- The two keys of a pair are those of a scanned service and of one of its stack that its compose file
  -- names in `depends_on`.
  pub record IsObserved (pair : Text) : Type 0 where
    pub source : Text
    pub target : Text
    pub service : Service
    pub name : Text
    pub pair_is : pair ≡ pair_of (observed_edge source target)
    pub scanned : service_at vs source ≡ some service
    pub named : contains name service.depends_on ≡ true
    pub found : in_stack vs (split_key source).0 name ≡ some target

  -- The two keys of a pair are those of a scanned service and of the one that a reference of its
  -- declaration resolves to.
  pub record IsDeclared (pair : Text) : Type 0 where
    pub source : Text
    pub target : Text
    pub service : Service
    pub declaration : ServiceDeclaration
    pub ref : Text
    pub pair_is : pair ≡ pair_of (observed_edge source target)
    pub scanned : service_at vs source ≡ some service
    pub declares : service.declared ≡ some declaration
    pub named : contains ref (refs_of declaration.depends_on) ≡ true
    pub found : resolve_ref vs source (split_key source).0 ref ≡ resolved_to target

  -- An edge between two scanned services, with the networks that they share; one that is marked as
  -- observed is in a compose file, and one that is marked as declared in a declaration.
  pub record IsEdge (d : Dependency) : Type 0 where
    pub source_scanned : contains d.source (index_keys vs) ≡ true
    pub target_scanned : contains d.target (index_keys vs) ≡ true
    pub apart : text_eq d.target d.source ≡ false
    pub via_shared : d.via ≡ shared nets d.source d.target
    pub stated : (d.observed || d.declared) ≡ true
    pub in_compose : d.observed ≡ true → IsObserved (pair_of d)
    pub in_declaration : d.declared ≡ true → IsDeclared (pair_of d)

  pub record IsMerged (deps : Deps) : Type 0 where
    pub once : Distinct (pairs deps.resolved)
    pub edges : All IsEdge deps.resolved

  IsObserved-same : (p q : Text) → p ≡ q → IsObserved q → IsObserved p
  IsObserved-same p q e h = rw e h

  IsDeclared-same : (p q : Text) → p ≡ q → IsDeclared q → IsDeclared p
  IsDeclared-same p q e h = rw e h

  IsEdge-merge :
      (e d : Dependency) → pair_of e ≡ pair_of d → IsEdge e → IsEdge d → IsEdge (merge e d)
  IsEdge-merge e d same h k = record {
    source_scanned = h.source_scanned;
    target_scanned = h.target_scanned;
    apart = h.apart;
    via_shared = h.via_shared;
    stated = ground (arith, h.stated);
    in_compose = λ o. elim (Bool-cases e.observed) [
      | inl y ↦ h.in_compose y
      | inr n ↦ IsObserved-same (pair_of e) (pair_of d) same (k.in_compose (ground arith))
    ];
    in_declaration = λ o. elim (Bool-cases e.declared) [
      | inl y ↦ h.in_declaration y
      | inr n ↦ IsDeclared-same (pair_of e) (pair_of d) same (k.in_declaration (ground arith))
    ];
  }

  All-add_resolved :
      (d : Dependency) (es : List Dependency)
      → IsEdge d
      → All IsEdge es
      → All IsEdge (add_resolved d es)
  unfolding add_resolved
  All-add_resolved d [] h a = (h, tt)
  All-add_resolved d (e ∷ es) h a = elim (Bool-cases (text_eq (pair_of e) (pair_of d))) [
    | inl s ↦ rw s (IsEdge-merge e d ((text_eq_iff (pair_of e) (pair_of d)).0 s) a.0 h, a.1)
    | inr s ↦ rw s (a.0, All-add_resolved d es h a.1)
  ]

  add-IsMerged :
      (d : Dependency) (deps : Deps)
      → IsEdge (record d { via = shared nets d.source d.target })
      → IsMerged deps
      → IsMerged (add nets d deps)
  unfolding add
  add-IsMerged d deps e h =
      let full : Dependency = record d { via = shared nets d.source d.target } in
      record {
        once =
            rw (pairs-add_resolved full deps.resolved)
              (Distinct-append_once (pairs deps.resolved) (pair_of full) h.once);
        edges = All-add_resolved full deps.resolved e h.edges;
      }

  module _ (key : Text) (svc : Service) (scanned : service_at vs key ≡ some svc)
      (listed : contains key (index_keys vs) ≡ true) where
    observed-IsEdge :
        (name to : Text)
        → contains name svc.depends_on ≡ true
        → in_stack vs (split_key key).0 name ≡ some to
        → text_eq to key ≡ false
        → IsEdge (record (observed_edge key to) { via = shared nets key to })
    observed-IsEdge name to n e f = record {
      source_scanned = listed;
      target_scanned = in_stack-contains vs (split_key key).0 name to e;
      apart = f;
      via_shared = refl;
      stated = refl;
      in_compose = λ o. record {
        source = key;
        target = to;
        service = svc;
        name = name;
        pair_is = refl;
        scanned = scanned;
        named = n;
        found = e;
      };
      in_declaration = λ o. absurd (ground (arith, o));
    }

    declared-IsEdge :
        (d : ServiceDeclaration) (ref to detail : Text)
        → svc.declared ≡ some d
        → contains ref (refs_of d.depends_on) ≡ true
        → resolve_ref vs key (split_key key).0 ref ≡ resolved_to to
        → IsEdge (record (declared_edge key to d.file detail) { via = shared nets key to })
    declared-IsEdge d ref to detail has n e =
        let sound = resolve_ref_sound vs key (split_key key).0 ref to e in
        record {
          source_scanned = listed;
          target_scanned = sound.0;
          apart = sound.1;
          via_shared = refl;
          stated = refl;
          in_compose = λ o. absurd (ground (arith, o));
          in_declaration = λ o. record {
            source = key;
            target = to;
            service = svc;
            declaration = d;
            ref = ref;
            pair_is = refl;
            scanned = scanned;
            declares = has;
            named = n;
            found = e;
          };
        }

    compose_edges-IsMerged :
        (names : List Text) (deps : Deps)
        → Within names svc.depends_on
        → IsMerged deps
        → IsMerged (compose_edges vs nets key (split_key key).0 names deps)
    unfolding compose_edges
    compose_edges-IsMerged [] deps w h = h
    compose_edges-IsMerged (name ∷ names) deps w h =
        let rest : Within names svc.depends_on = λ n k. w n (contains-tail n name names k) in
        elim (Option-cases (in_stack vs (split_key key).0 name)) [
          | inl e ↦ rw e (compose_edges-IsMerged names deps rest h)
          | inr (to, e) ↦ elim (Bool-cases (text_eq to key)) [
            | inl f ↦ rw (e, f) (compose_edges-IsMerged names deps rest h)
            | inr f ↦
                rw (e, f)
                  (compose_edges-IsMerged names _ rest (
                    add-IsMerged (observed_edge key to) deps
                      (observed-IsEdge name to (w name (contains-head name names)) e f) h))
          ]
        ]

    declared_edges-IsMerged :
        (d : ServiceDeclaration) (refs : List DeclaredServiceDependency) (deps : Deps)
        → svc.declared ≡ some d
        → Within (refs_of refs) (refs_of d.depends_on)
        → IsMerged deps
        → IsMerged (declared_edges vs nets key (split_key key).0 d.file refs deps)
    unfolding declared_edges
    declared_edges-IsMerged d [] deps has w h = h
    declared_edges-IsMerged d (r ∷ refs) deps has w h =
        let rest : Within (refs_of refs) (refs_of d.depends_on) =
          λ n k. w n (contains-tail n r.ref (refs_of refs) k) in
        elim (Resolution-cases (resolve_ref vs key (split_key key).0 r.ref)) [
          | inl (reason, considered, e) ↦ rw e (
              declared_edges-IsMerged d refs _ has rest (record { once = h.once; edges = h.edges }))
          | inr (to, e) ↦ rw e (
              declared_edges-IsMerged d refs _ has rest (
                add-IsMerged (declared_edge key to d.file r.detail) deps
                  (declared-IsEdge d r.ref to r.detail has
                    (w r.ref (contains-head r.ref (refs_of refs))) e)
                  h))
        ]

    declaration_edges-IsMerged :
        (deps : Deps) → IsMerged deps → IsMerged (declaration_edges vs nets key svc.declared deps)
    unfolding declaration_edges
    declaration_edges-IsMerged deps h = elim (Option-cases svc.declared) [
      | inl e ↦ rw (e, declaration_edges) h
      | inr (d, e) ↦
          rw (e, declaration_edges) (declared_edges-IsMerged d d.depends_on deps e (λ n k. k) h)
    ]

  all_edges-IsMerged :
      (keys : List Text) (deps : Deps)
      → All (λ key. contains key (index_keys vs) ≡ true) keys
      → IsMerged deps
      → IsMerged (all_edges vs nets keys deps)
  unfolding all_edges
  all_edges-IsMerged [] deps ks h = h
  all_edges-IsMerged (key ∷ keys) deps ks h = elim (Option-cases (service_at vs key)) [
    | inl e ↦ rw e (all_edges-IsMerged keys deps ks.1 h)
    | inr (svc, e) ↦ rw e (
        all_edges-IsMerged keys _ ks.1 (
          declaration_edges-IsMerged key svc e ks.0 _
            (compose_edges-IsMerged key svc e ks.0 svc.depends_on deps (λ n k. k) h)))
  ]

contains-All :
    (keys more : List Text)
    → ((key : Text) → contains key keys ≡ true → contains key more ≡ true)
    → All (λ key. contains key more ≡ true) keys
unfolding contains
contains-All [] more f = tt
contains-All (k ∷ keys) more f =
    (f k (rw (text_eq_refl k) refl), contains-All keys more (λ key h. f key (ground arith)))

-- In the resolved dependencies each pair stands once. Each edge joins two different scanned services,
-- carries the networks that the two share, and is marked as observed or as declared: as observed only
-- if the compose file of a service of that pair names the other in its stack, and as declared only if
-- a reference in the declaration of one resolves to the other. A pair is told by its text, the two keys
-- with an arrow between.
pub dependencies-IsMerged :
    (stacks : List AppStack) (nets : Networks)
    → IsMerged (each stacks) nets (dependencies stacks nets)
unfolding dependencies
dependencies-IsMerged stacks nets =
    all_edges-IsMerged (each stacks) nets (index_keys (each stacks)) _
      (contains-All (index_keys (each stacks)) (index_keys (each stacks)) (λ key h. h))
      (record { once = tt; edges = tt })
