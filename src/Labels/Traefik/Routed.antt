-- ===== src/Labels/Traefik/Routed.antt =====
-- What is read of a rule, and when routers are withheld (traefik.go).
use labview.Common.{
  ℕ, zero, suc, ◌+◌, ◌≤◌, ◌<◌, ◌≡◌, refl, ap, ◌∙◌, ltb, ◌&&◌, if◌then◌else◌, Option-cases, take,
  drop, true, false, List, [], ◌∷◌, ◌++◌, Option, none, some, arith, All, Bool-cases, inl, inr,
  length, length-append,
}
use labview.Common.Text.{
  Text, ascii, lower_byte, codes, is_empty, contains, has_byte, has_byte-append, has_prefix,
  append_once, Distinct, Distinct-append_once, is_space, trim_space, trim_left, to_lower,
  cut_byte_complete, split_byte, sort_texts,
}
use labview.Common.Map.{Map, keys, lookup}
use labview.Common.Trim.{free, trim_right-free, trim_right-last, trim_left-free, trim_right-one}
use labview.Payload.{TraefikRoute}
use labview.Labels.Traefik.{
  RouterNote, field_at, fields_or_nil, flag_off, is_quote, unquoted, scan_args, keep_first,
  matcher_args, rule_hosts, rule_path_prefixes, Read, router_route, router_routes, report_routers,
  traefik_routes, read_labels,
}

keep_first-Distinct : (out xs : List Text) → Distinct out → Distinct (keep_first out xs)
unfolding keep_first
keep_first-Distinct out [] d = d
keep_first-Distinct out (x ∷ xs) d =
    keep_first-Distinct (append_once out x) xs (Distinct-append_once out x d)

matcher_args-Distinct :
    (lower : Text → Text) (rule matcher : Text) (found : List Text)
    → matcher_args lower rule matcher ≡ some found
    → Distinct found
unfolding matcher_args
matcher_args-Distinct lower rule matcher found h =
    elim (Option-cases (scan_args (matcher ++ codes "(") rule none 0 (lower rule))) [
      | inl e ↦ absurd (ground arith)
      | inr (args, e) ↦
          let same : keep_first [] args ≡ found = ground arith in
          rw same at (keep_first-Distinct [] args tt)
    ]

-- No host and no path prefix of a router stands twice.
pub IsOnce : TraefikRoute → Type 0
IsOnce t = Distinct t.hosts × Distinct t.path_prefixes

rule_of : Read → Text → Text
rule_of r name = trim_space (field_at (fields_or_nil (lookup name r.routers)) (codes "rule"))

router_route-IsOnce :
    (lower : Text → Text) (r : Read) (name : Text) (t : TraefikRoute)
    → router_route lower r name ≡ some t
    → IsOnce t
unfolding router_route rule_hosts rule_path_prefixes IsOnce rule_of
router_route-IsOnce lower r name t h =
    let rule = rule_of r name in
    elim (Option-cases (matcher_args lower rule (codes "host"))) [
      | inl e ↦ absurd (ground arith)
      | inr (hosts, e) ↦ elim (Option-cases (matcher_args lower rule (codes "pathprefix"))) [
        | inl f ↦ absurd (ground arith)
        | inr (prefixes, f) ↦
            let same_hosts : hosts ≡ t.hosts = ground arith in
            let same_prefixes : prefixes ≡ t.path_prefixes = ground arith in
            (
              rw same_hosts at (matcher_args-Distinct lower rule (codes "host") hosts e),
              rw same_prefixes at
                  (matcher_args-Distinct lower rule (codes "pathprefix") prefixes f),
            )
      ]
    ]

router_routes-All :
    (lower : Text → Text) (r : Read) (names : List Text) (ts : List TraefikRoute)
    → router_routes lower r names ≡ some ts
    → All IsOnce ts
unfolding router_routes
router_routes-All lower r [] ts h = let same : [] ≡ ts = ground arith in rw (← same) tt
router_routes-All lower r (name ∷ names) ts h = elim (Option-cases (router_route lower r name)) [
  | inl e ↦ absurd (ground arith)
  | inr (t, e) ↦ elim (Option-cases (router_routes lower r names)) [
    | inl f ↦ absurd (ground arith)
    | inr (rest, f) ↦
        let same : t ∷ rest ≡ ts = ground arith in
        rw (← same) (router_route-IsOnce lower r name t e, router_routes-All lower r names rest f)
  ]
]

split_byte-plain : (c : ℕ) (s : Text) → has_byte c s ≡ false → split_byte c s ≡ s ∷ []
unfolding split_byte has_byte
split_byte-plain c [] h = refl
split_byte-plain c (x ∷ s) h = ground (arith, split_byte-plain c s)

scan_args-skipped :
    (word rule : Text) (prev : Option ℕ) (skip : ℕ) (s : Text)
    → length s ≤ skip
    → scan_args word rule prev skip s ≡ some []
unfolding scan_args
scan_args-skipped word rule prev skip [] h = refl
scan_args-skipped word rule prev zero (c ∷ s) h = ground arith
scan_args-skipped word rule prev (suc skip) (c ∷ s) h =
    scan_args-skipped word (drop 1 rule) (some c) skip s (omega arith)

-- The arguments of the only matcher of a rule, without their quotes.
unquoted-quoted :
    (host : Text)
    → free is_quote host ≡ true
    → is_empty host ≡ false
    → unquoted ((b'`' ∷ (host ++ b'`' ∷ [])) ∷ []) ≡ host ∷ []
unfolding unquoted trim_space trim_left
unquoted-quoted host q e =
    rw
      (
        trim_right-last is_space (b'`' ∷ host) b'`' refl,
        trim_left-free is_quote host (b'`' ∷ []) q e,
        trim_right-one is_quote host b'`' refl,
        trim_right-free is_quote host q,
        e,
      )
      refl

-- What the loop makes of a lowered rule with one matcher: the slice of the rule at the same places.
scan_args-one :
    (rule args : Text)
    → has_byte b')' args ≡ false
    → scan_args (codes "host(") rule none 0 (codes "host(" ++ (args ++ b')' ∷ [])) ≡ (
        if ltb (length rule) (5 + length args)
        then none
        else some (unquoted (split_byte b',' (take (length args) (drop 5 rule))) ++ []))
unfolding scan_args has_prefix
scan_args-one rule args inside =
    rw
      (
        cut_byte_complete b')' args [] inside,
        scan_args-skipped (codes "host(") (drop 1 rule) (some b'h') (5 + length args)
            (codes "ost(" ++ (args ++ b')' ∷ [])) (omega (arith, length-append args (b')' ∷ []))),
      )
      refl

abbrev first_found : Option (List Text) → Option (List Text)
first_found none = none
first_found (some found) = some (keep_first [] found)

rule_hosts-one :
    (lower : Text → Text) (rule args : Text)
    → lower rule ≡ codes "host(" ++ (args ++ b')' ∷ [])
    → has_byte b')' args ≡ false
    → rule_hosts lower rule
      ≡ first_found (
          if ltb (length rule) (5 + length args)
          then none
          else some (unquoted (split_byte b',' (take (length args) (drop 5 rule))) ++ []))
unfolding rule_hosts matcher_args
rule_hosts-one lower rule args lowered inside =
    let found : scan_args (codes "host(") rule none 0 (lower rule) ≡ (
        if ltb (length rule) (5 + length args)
        then none
        else some (unquoted (split_byte b',' (take (length args) (drop 5 rule))) ++ [])) =
      rw lowered (scan_args-one rule args inside) in
    rw (rule_hosts, matcher_args, found)
      (elim (Bool-cases (ltb (length rule) (5 + length args))) [
        | inl e ↦ rw e refl
        | inr e ↦ rw e refl
      ])

take-whole : (xs ys : Text) (n : ℕ) → n ≡ length xs → take n (xs ++ ys) ≡ xs
take-whole [] [] n e = rw e refl
take-whole [] (y ∷ ys) n e = rw e refl
take-whole (x ∷ xs) ys n e = rw e (ap (λ t. x ∷ t) (take-whole xs ys (length xs) refl))

has_byte-to_lower : (s : Text) → has_byte b')' (to_lower s) ≡ has_byte b')' s
unfolding has_byte to_lower
has_byte-to_lower [] = refl
has_byte-to_lower (x ∷ s) = ground (arith, has_byte-to_lower s)

length-to_lower : (s : Text) → length (to_lower s) ≡ length s
unfolding to_lower
length-to_lower [] = refl
length-to_lower (x ∷ s) = ground (arith, length-to_lower s)

to_lower-append : (s t : Text) → to_lower (s ++ t) ≡ to_lower s ++ to_lower t
unfolding to_lower
to_lower-append [] t = refl
to_lower-append (x ∷ s) t = ap (λ u. lower_byte x ∷ u) (to_lower-append s t)

ascii-append : (s t : Text) → ascii (s ++ t) ≡ (ascii s && ascii t)
unfolding ascii
ascii-append [] t = refl
ascii-append (x ∷ s) t = ground (arith, ascii-append s t)

-- The rule that names one host between back quotes.
abbrev pub quoted_rule : Text → Text
quoted_rule host = codes "Host(" ++ ((b'`' ∷ (host ++ b'`' ∷ [])) ++ b')' ∷ [])

quoted_rule-ascii : (host : Text) → ascii host ≡ true → ascii (quoted_rule host) ≡ true
unfolding ascii
quoted_rule-ascii host h =
    ground (arith, ascii-append (host ++ b'`' ∷ []) (b')' ∷ []), ascii-append host (b'`' ∷ []))

quoted_rule-lower :
    (args : Text)
    → to_lower (codes "Host(" ++ (args ++ b')' ∷ []))
      ≡ codes "host(" ++ (to_lower args ++ b')' ∷ [])
unfolding to_lower
quoted_rule-lower args = ap (λ t. codes "host(" ++ t) (to_lower-append args (b')' ∷ []))

quoted_rule-long :
    (args : Text)
    → ltb (length (codes "Host(" ++ (args ++ b')' ∷ []))) (5 + length (to_lower args)) ≡ false
quoted_rule-long args = ground (arith, length-to_lower args, length-append args (b')' ∷ []))

quoted_rule-short :
    (host args : Text)
    → length host + 3 < length args
    → ltb (length (quoted_rule host)) (5 + length args) ≡ true
quoted_rule-short host args h =
    ground (arith, length-append (host ++ b'`' ∷ []) (b')' ∷ []), length-append host (b'`' ∷ []))

-- Where lowering an ASCII text lowers its letters: a rule that names one ASCII host between back
-- quotes, with no quote, comma or closing bracket in it, is read as that host, in its own case.
pub rule_hosts-quoted :
    (lower : Text → Text) (host : Text)
    → ((s : Text) → ascii s ≡ true → lower s ≡ to_lower s)
    → ascii host ≡ true
    → is_empty host ≡ false
    → free is_quote host ≡ true
    → has_byte b',' host ≡ false
    → has_byte b')' host ≡ false
    → rule_hosts lower (quoted_rule host) ≡ some (host ∷ [])
unfolding rule_hosts matcher_args keep_first append_once contains
rule_hosts-quoted lower host law plain e q comma bracket =
    let args = b'`' ∷ (host ++ b'`' ∷ []) in
    let inside : has_byte b')' args ≡ false =
      unfold has_byte in ground (arith, has_byte-append b')' host (b'`' ∷ [])) in
    let single : has_byte b',' args ≡ false =
      unfold has_byte in ground (arith, has_byte-append b',' host (b'`' ∷ [])) in
    let lowered : lower (quoted_rule host) ≡ codes "host(" ++ (to_lower args ++ b')' ∷ []) =
      law (quoted_rule host) (quoted_rule-ascii host plain) ∙ quoted_rule-lower args in
    let cut = take-whole args (b')' ∷ []) (length (to_lower args)) (length-to_lower args) in
    rule_hosts-one lower (quoted_rule host) (to_lower args) lowered
      (has_byte-to_lower args ∙ inside)
    ∙ rw (quoted_rule-long args, cut, split_byte-plain b',' args single, unquoted-quoted host q e)
        refl

-- A rule that grows when it is lowered makes the loop slice behind its end, which panics: the lowered
-- arguments hold no closing bracket, and are longer than the host, its two quotes and the bracket
-- behind them.
pub rule_hosts-grown :
    (lower : Text → Text) (host args : Text)
    → lower (quoted_rule host) ≡ codes "host(" ++ (args ++ b')' ∷ [])
    → has_byte b')' args ≡ false
    → length host + 3 < length args
    → rule_hosts lower (quoted_rule host) ≡ none
unfolding rule_hosts matcher_args
rule_hosts-grown lower host args lowered inside long =
    rule_hosts-one lower (quoted_rule host) args lowered inside
    ∙ rw (quoted_rule-short host args long) refl

-- Every router that is reported has each of its hosts and path prefixes once, whatever the labels are.
pub traefik_routes-All :
    (lower : Text → Text) (lbls : Map Text) (prefix : Text) (ts : List TraefikRoute)
    (notes : List RouterNote)
    → traefik_routes lower lbls prefix ≡ some (ts, notes)
    → All IsOnce ts
unfolding traefik_routes report_routers
traefik_routes-All lower lbls prefix ts notes h =
    let r =
      read_labels lower lbls prefix (sort_texts (keys lbls))
        (record { routers = []; ports = []; enable = none }) in
    elim (Bool-cases (flag_off r.enable)) [
      | inl e ↦ let same : [] ≡ ts = ground arith in rw (← same) tt
      | inr e ↦ elim (Option-cases (router_routes lower r (sort_texts (keys r.routers)))) [
        | inl f ↦ absurd (ground arith)
        | inr (us, f) ↦
            let same : us ≡ ts = ground arith in
            rw same at (router_routes-All lower r (sort_texts (keys r.routers)) us f)
      ]
    ]
