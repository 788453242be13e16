-- ===== src/Fleet/Origins/Hops.antt =====
-- When a hop is named, and which (origins.go).
use labview.Common.{
  ◌≡◌, ◌≢◌, ◌↔◌, refl, ap, Bool, true, false, ◌&&◌, not, List, [], ◌∷◌, arith, if◌then◌else◌,
  Bool-cases, inl, inr,
}
use labview.Common.Text.{
  Text, text_eq, text_eq_iff, text_eq_refl, is_empty, has_byte, contains, Distinct,
  Distinct-append_once,
}
use labview.Common.Map.{Map, lookup}
use labview.Fleet.{Visit, each}
use labview.Payload.{fleet_service, Service, AppStack}
use labview.Fleet.Networks.{Networks, shares_any}
use labview.Fleet.Address.{Address, parse_address, is_ip}
use labview.Fleet.Index.{
  Index, by_host_port, by_name, reachable, new_index, fill, add_names, add_name, listed, fold,
  host_ports_of, dns_names_of,
}
use labview.Fleet.Index.Listed.{contains-reachable, listed-add_name}
use labview.Fleet.Origins.{
  settle, resolve_host_port, resolve_container_name, names_self, resolve_address, resolve_origin,
}

contains_self : (x : Text) → contains x (x ∷ []) ≡ true
unfolding contains
contains_self x = ground (arith, text_eq_refl x)

contains_one : (x y : Text) → (contains x (y ∷ []) ≡ true) ↔ (x ≡ y)
unfolding contains
contains_one x y = ground (arith, text_eq_iff y x)

-- A list without repetitions whose only member is one text is that text alone.
single :
    (xs : List Text) (x : Text)
    → Distinct xs
    → contains x xs ≡ true
    → ((y : Text) → contains y xs ≡ true → y ≡ x)
    → xs ≡ x ∷ []
unfolding contains
single [] x d h f = absurd (ground arith)
single (a ∷ []) x d h f = ap (λ y. y ∷ []) (f a (rw (text_eq_refl a) refl))
single (a ∷ b ∷ xs) x d h f =
    let first = f a (rw (text_eq_refl a) refl) in
    let next = f b (ground (arith, text_eq_refl b)) in absurd (ground (arith, d.0, text_eq_refl x))

Distinct-reachable :
    (nets : Networks) (key : Text) (cs : List Text) → Distinct cs → Distinct (reachable nets key cs)
unfolding reachable
Distinct-reachable nets key [] d = tt
Distinct-reachable nets key (c ∷ cs) d =
    let rest = Distinct-reachable nets key cs d.1 in
    elim (Bool-cases (not (text_eq c key) && shares_any nets key c)) [
      | inl e ↦ rw (reachable, e) (ground (arith, contains-reachable nets key cs c, d.0), rest)
      | inr e ↦ rw (reachable, e) rest
    ]

module _ (parse_ip : Text → Bool) (ix : Index) (nets : Networks) where
  -- The services that an address may mean: an IP literal those on its port, a name those it names.
  unfoldable pub meant : Address → List Text
  meant a = if is_ip parse_ip a then by_host_port ix a.port else by_name ix a.host

  -- Whether the fleet is asked for a service in front of this one: the address has a host, which if it
  -- is an IP literal has a port that this service does not publish, and else is one label that is not
  -- a name of this service.
  unfoldable pub asks : Text → Service → Address → Bool
  asks key svc a =
      not (is_empty a.host)
      && (if is_ip parse_ip a
          then not (is_empty a.port) && not (contains key (by_host_port ix a.port))
          else not (names_self svc a.host) && not (has_byte b'.' a.host))

  settles :
      (key : Text) (svc : Service) (a : Address)
      → asks key svc a ≡ true
      → resolve_address parse_ip ix nets key svc a
        ≡ settle a (meant a) (reachable nets key (meant a))
  unfolding asks meant resolve_address resolve_host_port resolve_container_name
  settles key svc a h = ground arith

  no_hop :
      (key : Text) (svc : Service) (a : Address)
      → asks key svc a ≡ false
      → (resolve_address parse_ip ix nets key svc a).target.kind ≢ fleet_service
  unfolding asks resolve_address resolve_host_port resolve_container_name
  no_hop key svc a h e = ground arith

  settle-hop :
      (a : Address) (cs hops : List Text) (hop : Text)
      → (((settle a cs hops).target.kind ≡ fleet_service)
          × ((settle a cs hops).target.hop_key ≡ hop))
        ↔ (hops ≡ hop ∷ [])
  unfolding settle
  settle-hop a cs [] hop = ground arith
  settle-hop a cs (h ∷ []) hop = ground arith
  settle-hop a cs (h ∷ k ∷ hops) hop = ground arith

  resolve_origin-reachable :
      (key : Text) (svc : Service) (address hop : Text)
      → (((resolve_origin parse_ip ix nets key svc address).target.kind ≡ fleet_service)
          × ((resolve_origin parse_ip ix nets key svc address).target.hop_key ≡ hop))
        ↔ ((asks key svc (parse_address address) ≡ true)
            × (reachable nets key (meant (parse_address address)) ≡ hop ∷ []))
  unfolding resolve_origin
  resolve_origin-reachable key svc address hop =
      let a = parse_address address in
      elim (Bool-cases (asks key svc a)) [
        | inl h ↦
            let s = settle-hop a (meant a) (reachable nets key (meant a)) hop in
            rw (resolve_origin, settles key svc a h) ((λ e. (h, s.0 e)), (λ e. s.1 e.1))
        | inr h ↦ ((λ e. elim (no_hop key svc a h e.0) [ ]), (λ e. ground arith))
      ]

  -- Whether a service may stand in front of another for an address: it is one that the address may
  -- mean, another one, and on a network that the two share.
  abbrev pub Fronts : Text → Address → Text → Type 0
  Fronts key a hop =
      (contains hop (meant a) ≡ true) × (hop ≢ key) × (shares_any nets key hop ≡ true)

  reachable-Fronts :
      (key : Text) (a : Address) (hop : Text)
      → (contains hop (reachable nets key (meant a)) ≡ true) ↔ Fronts key a hop
  reachable-Fronts key a hop =
      let c = contains-reachable nets key (meant a) hop in
      elim (Bool-cases (text_eq hop key)) [
        | inl same ↦
            (λ h. absurd (ground (arith, c)), λ f. elim (f.1 ((text_eq_iff hop key).0 same)) [ ])
        | inr apart ↦ (
          λ h. (
            ground (arith, c),
            λ e. absurd (ground (arith, apart, (text_eq_iff hop key).1 e)),
            ground (arith, c),
          ),
          λ f. ground (arith, c, f.0, f.2),
        )
      ]

  reachable-only :
      (key : Text) (a : Address) (hop : Text)
      → Distinct (meant a)
      → (reachable nets key (meant a) ≡ hop ∷ [])
        ↔ (Fronts key a hop × ((other : Text) → Fronts key a other → other ≡ hop))
  reachable-only key a hop once =
      let left = reachable nets key (meant a) in
      (
        λ e. (
          (reachable-Fronts key a hop).0 (rw e (contains_self hop)),
          λ other f. (contains_one other hop).0 (rw e at ((reachable-Fronts key a other).1 f)),
        ),
        λ f.
            single left hop (Distinct-reachable nets key (meant a) once)
              ((reachable-Fronts key a hop).1 f.0)
              (λ other h. f.1 other ((reachable-Fronts key a other).0 h)),
      )

  -- A named hop is another service, shares a network with this one, and is one that the address may
  -- mean.
  pub resolve_origin-reaches :
      (key : Text) (svc : Service) (address hop : Text)
      → (resolve_origin parse_ip ix nets key svc address).target.kind ≡ fleet_service
      → (resolve_origin parse_ip ix nets key svc address).target.hop_key ≡ hop
      → (text_eq hop key ≡ false)
        × (shares_any nets key hop ≡ true)
        × (contains hop (meant (parse_address address)) ≡ true)
  resolve_origin-reaches key svc address hop k h =
      let only = (resolve_origin-reachable key svc address hop).0 (k, h) in
      let cs = meant (parse_address address) in
      let kept : contains hop (reachable nets key cs) ≡ true = rw only.1 (member hop) in
      ground (arith, contains-reachable nets key cs hop)
    where
      member : (hop : Text) → contains hop (hop ∷ []) ≡ true
      member hop = unfold contains in ground (arith, text_eq_refl hop)

-- Under a name and on a port of the index, each service stands once.
Distinct-add_names :
    (ns : List Text) (key text : Text) (table : Map (List Text))
    → Distinct (listed text table)
    → Distinct (listed text (add_names ns key table))
unfolding add_names
Distinct-add_names [] key text table d = d
Distinct-add_names (n ∷ ns) key text table d =
    Distinct-add_names ns key text (add_name n key table) (
      rw (listed-add_name n key text table)
        (elim (Bool-cases (not (is_empty (fold n)) && text_eq (fold n) text)) [
          | inl e ↦ rw e (Distinct-append_once (listed text table) key d)
          | inr e ↦ rw e d
        ]))

Distinct-fill :
    (f : Service → List Text) (vs : List Visit) (text : Text) (table : Map (List Text))
    → Distinct (listed text table)
    → Distinct (listed text (fill f vs table))
unfolding fill
Distinct-fill f [] text table d = d
Distinct-fill f (v ∷ vs) text table d =
    Distinct-fill f vs text (add_names (f v.service) v.key table)
      (Distinct-add_names (f v.service) v.key text table d)

nothing : (text : Text) → Distinct (listed text [])
unfolding listed lookup
nothing text = tt

Distinct-meant :
    (parse_ip : Text → Bool) (stacks : List AppStack) (nets : Networks) (a : Address)
    → Distinct (meant parse_ip (new_index stacks) nets a)
unfolding meant new_index by_host_port by_name
Distinct-meant parse_ip stacks nets a = elim (Bool-cases (is_ip parse_ip a)) [
  | inl e ↦
      rw e (Distinct-fill host_ports_of (each stacks) (fold a.port) [] (nothing (fold a.port)))
  | inr e ↦ rw e (Distinct-fill dns_names_of (each stacks) (fold a.host) [] (nothing (fold a.host)))
]

-- With the index of the scanned stacks, a service is named as the hop exactly if the address asks the
-- fleet for one, it is one that the address may mean, another one, and on a shared network, and every
-- service of which all that holds is it: where two would do, none is named.
pub resolve_origin-hop :
    (parse_ip : Text → Bool) (stacks : List AppStack) (nets : Networks) (key : Text) (svc : Service)
    (address hop : Text)
    → (((resolve_origin parse_ip (new_index stacks) nets key svc address).target.kind
          ≡ fleet_service)
        × ((resolve_origin parse_ip (new_index stacks) nets key svc address).target.hop_key ≡ hop))
      ↔ ((asks parse_ip (new_index stacks) nets key svc (parse_address address) ≡ true)
          × Fronts parse_ip (new_index stacks) nets key (parse_address address) hop
          × ((other : Text)
              → Fronts parse_ip (new_index stacks) nets key (parse_address address) other
              → other ≡ hop))
resolve_origin-hop parse_ip stacks nets key svc address hop =
    let ix = new_index stacks in
    let a = parse_address address in
    let r = resolve_origin-reachable parse_ip ix nets key svc address hop in
    let o = reachable-only parse_ip ix nets key a hop (Distinct-meant parse_ip stacks nets a) in
    ((λ e. let q = r.0 e in let f = o.0 q.1 in (q.0, f.0, f.1)), (λ e. r.1 (e.0, o.1 (e.1, e.2))))
