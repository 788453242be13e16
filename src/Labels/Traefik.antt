-- ===== src/Labels/Traefik.antt =====
-- internal/labels/traefik.go: the routers that a service's labels declare.
--
-- The loop of `matcherArgs` over an index is a recursion over the bytes, with the number of bytes that
-- it jumps over. `strings.ToLower` is an argument, `lower`: it may give a text of another length, and
-- the loop slices the rule by the places of the lowered one. Nothing is the panic of a slice that ends
-- behind its text. A note is its kind.

pub mod Routed
mod Tests
use labview.Common.{
  ℕ, zero, suc, ◌+◌, ◌-◌, ◌==◌, leb, ltb, Bool, true, false, ◌&&◌, ◌||◌, not, List, [], ◌∷◌, ◌++◌,
  Option, none, some, if◌then◌else◌, length, drop, take, no_items,
}
use labview.Common.Text.{
  Text, codes, text_eq, is_empty, trim_space, trim_left, trim_right, cut_byte, has_prefix,
  split_byte, append_once, sort_texts,
}
use labview.Common.Map.{Map, lookup, insert, keys}
use labview.Payload.{TraefikRoute}
use labview.Labels.{after_prefix, truthy, falsy, split_list}

abbrev pub is_name_byte : ℕ → Bool
is_name_byte c =
    (c == b'_')
    || (leb b'a' c && leb c b'z')
    || (leb b'A' c && leb c b'Z')
    || (leb b'0' c && leb c b'9')

abbrev pub is_quote : ℕ → Bool
is_quote c = (c == b'`') || (c == 39) || (c == b'"')

-- the loop over the arguments of one occurrence
unfoldable pub unquoted : List Text → List Text
unquoted [] = []
unquoted (arg ∷ args) =
    let a = trim_right is_quote (trim_left is_quote (trim_space arg)) in
    let rest = unquoted args in if is_empty a then rest else a ∷ rest

abbrev follows_name : Option ℕ → Bool
follows_name none = false
follows_name (some c) = is_name_byte c

-- more arguments before those of the later occurrences, if those can be sliced
abbrev before_more : List Text → Option (List Text) → Option (List Text)
before_more args none = none
before_more args (some more) = some (args ++ more)

-- The loop, over the lowered text and beside it what is left of the rule. `word` is the matcher with
-- its bracket; `prev` the byte before.
unfoldable pub scan_args : Text → Text → Option ℕ → ℕ → Text → Option (List Text)
scan_args word rule prev skip [] = some []
scan_args word rule prev (suc skip) (c ∷ s) = scan_args word (drop 1 rule) (some c) skip s
scan_args word rule prev zero (c ∷ s) =
    if not (has_prefix (c ∷ s) word)
    then scan_args word (drop 1 rule) (some c) 0 s
    else if follows_name prev
    then scan_args word (drop 1 rule) (some c) (length word - 1) s
    else elim (cut_byte b')' (drop (length word) (c ∷ s))) [
      | none ↦ some []
      | some (args, rest) ↦
          if ltb (length rule) (length word + length args)
          then none
          else before_more
              (unquoted (split_byte b',' (take (length args) (drop (length word) rule))))
              (scan_args word (drop 1 rule) (some c) (length word + length args) s)
    ]

-- `dedupe`
unfoldable pub keep_first : List Text → List Text → List Text
keep_first out [] = out
keep_first out (x ∷ xs) = keep_first (append_once out x) xs

unfoldable pub matcher_args : (Text → Text) → Text → Text → Option (List Text)
matcher_args lower rule matcher = elim (scan_args (matcher ++ codes "(") rule none 0 (lower rule)) [
  | none ↦ none
  | some found ↦ some (keep_first [] found)
]

unfoldable pub rule_hosts : (Text → Text) → Text → Option (List Text)
rule_hosts lower rule = matcher_args lower rule (codes "host")

unfoldable pub rule_path_prefixes : (Text → Text) → Text → Option (List Text)
rule_path_prefixes lower rule = matcher_args lower rule (codes "pathprefix")

-- `BareName`
unfoldable pub bare_name : Text → Text
bare_name ref = elim (cut_byte b'@' (trim_space ref)) [
  | none ↦ trim_space ref
  | some (name, provider) ↦ name
]

-- `strings.Join(…, ".")`
abbrev pub join_dots : List Text → Text
join_dots [] = []
join_dots (x ∷ []) = x
join_dots (x ∷ y ∷ xs) = x ++ b'.' ∷ join_dots (y ∷ xs)

pub record Read : Type 0 where
  pub routers : Map (Map Text)
  pub ports : Map Text
  pub enable : Option Text

abbrev pub fields_or_nil : Option (Map Text) → Map Text
fields_or_nil none = []
fields_or_nil (some fields) = fields

abbrev set_field : Text → Text → Map Text → Map Text
set_field field value fields = if is_empty field then fields else insert field value fields

abbrev is_http : (Text → Text) → Text → Bool
is_http lower s = text_eq (lower s) (codes "http")

-- a label with at least four segments
unfoldable pub read_field : (Text → Text) → Text → Text → Text → Text → Text → Read → Read
read_field lower section kind name field value r =
    if not (is_http lower section)
    then r
    else if text_eq (lower kind) (codes "routers")
    then record r {
      routers =
          insert name (set_field field value (fields_or_nil (lookup name r.routers))) r.routers;
    }
    else if text_eq (lower kind) (codes "services")
        && text_eq field (codes "loadbalancer.server.port")
    then record r { ports = insert name (trim_space value) r.ports }
    else r

unfoldable pub read_segments : (Text → Text) → List Text → Text → Read → Read
read_segments lower [] value r = r
read_segments lower (s ∷ []) value r =
    if text_eq (lower s) (codes "enable") then record r { enable = some value } else r
read_segments lower (s ∷ kind ∷ []) value r = r
read_segments lower (s ∷ kind ∷ name ∷ []) value r = r
read_segments lower (s ∷ kind ∷ name ∷ f ∷ fs) value r =
    read_field lower s kind name (lower (join_dots (f ∷ fs))) value r

abbrev pub value_of : Option Text → Text
value_of none = []
value_of (some v) = v

-- the loop over the sorted keys
unfoldable pub read_labels : (Text → Text) → Map Text → Text → List Text → Read → Read
read_labels lower lbls prefix [] r = r
read_labels lower lbls prefix (key ∷ ks) r =
    read_labels lower lbls prefix ks (elim (after_prefix key prefix) [
      | none ↦ r
      | some rest ↦ read_segments lower (split_byte b'.' rest) (value_of (lookup key lbls)) r
    ])

abbrev has_tls_field : Map Text → Bool
has_tls_field [] = false
has_tls_field ((k, v) ∷ fields) = has_prefix k (codes "tls.") || has_tls_field fields

-- `routerTLS`
unfoldable pub router_tls : Map Text → Bool
router_tls fields = elim (lookup (codes "tls") fields) [
  | none ↦ has_tls_field fields
  | some v ↦ if falsy v then false else if truthy v then true else has_tls_field fields
]

-- the port of the only service that declares one
abbrev only_port : Map Text → Text
only_port [] = []
only_port ((name, port) ∷ []) = port
only_port (p ∷ q ∷ ports) = []

unfoldable pub service_port_of : Map Text → Text → Text → Text
service_port_of ports service name =
    let named = value_of (lookup (bare_name service) ports) in
    let own = value_of (lookup name ports) in
    if not (is_empty service) && not (is_empty named)
    then named
    else if not (is_empty own)
    then own
    else only_port ports

abbrev pub field_at : Map Text → Text → Text
field_at fields name = value_of (lookup name fields)

-- one turn of the loop over the names
unfoldable pub router_route : (Text → Text) → Read → Text → Option TraefikRoute
router_route lower r name =
    let f = fields_or_nil (lookup name r.routers) in
    let rule = trim_space (field_at f (codes "rule")) in
    let service = trim_space (field_at f (codes "service")) in
    elim (rule_hosts lower rule) [
      | none ↦ none
      | some hosts ↦ elim (rule_path_prefixes lower rule) [
        | none ↦ none
        | some prefixes ↦ some (record {
          router = name;
          rule = rule;
          hosts = hosts;
          path_prefixes = prefixes;
          entrypoints = split_list (field_at f (codes "entrypoints"));
          tls = router_tls f;
          cert_resolver = trim_space (field_at f (codes "tls.certresolver"));
          middlewares = split_list (field_at f (codes "middlewares"));
          service_port = service_port_of r.ports service name;
          service = service;
        })
      ]
    ]

unfoldable pub router_routes : (Text → Text) → Read → List Text → Option (List TraefikRoute)
router_routes lower r [] = some []
router_routes lower r (name ∷ names) =
    let rest = router_routes lower r names in
    elim (router_route lower r name) [
      | none ↦ none
      | some route ↦ elim rest [ none ↦ none | some routes ↦ some (route ∷ routes) ]
    ]

pub data RouterNote : Type 0 where
  withheld : ℕ → Text → RouterNote
  odd_flag : Text → RouterNote

abbrev pub flag_off : Option Text → Bool
flag_off none = false
flag_off (some v) = falsy v

abbrev flag_odd : Option Text → Bool
flag_odd none = false
flag_odd (some v) = not (truthy v)

-- what is left behind the loop over the labels
unfoldable pub report_routers : (Text → Text) → Read → Option (List TraefikRoute × List RouterNote)
report_routers lower r =
    let names = sort_texts (keys r.routers) in
    if flag_off r.enable
    then some ([], if no_items names then [] else withheld (length names) (value_of r.enable) ∷ [])
    else elim (router_routes lower r names) [
      | none ↦ none
      | some routes ↦
          some (routes, if flag_odd r.enable then odd_flag (value_of r.enable) ∷ [] else [])
    ]

-- `Traefik`
unfoldable pub traefik_routes :
    (Text → Text) → Map Text → Text → Option (List TraefikRoute × List RouterNote)
traefik_routes lower lbls prefix = report_routers lower (
    read_labels lower lbls prefix (sort_texts (keys lbls))
      (record { routers = []; ports = []; enable = none }))
