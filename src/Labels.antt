-- ===== src/Labels.antt =====
-- internal/labels: labels.go and dockflare.go, the tunnel routes that a service's labels declare.
--
-- The index of a route is nothing for the flat form, which sorts before every number. The maps of
-- groups are a list of groups, each with its index. A note is its kind.

pub mod Indexed
pub mod Declared
pub mod Traefik
mod Tests
use labview.Common.{
  ℕ, zero, suc, ◌+◌, ◌-◌, ◌*◌, ◌==◌, ltb, leb, Bool, true, false, ◌&&◌, ◌||◌, not, List, [], ◌∷◌,
  ◌++◌, Option, none, some, if◌then◌else◌, length, take, drop, no_items,
}
use labview.Common.Text.{
  Text, codes, text_eq, is_empty, contains, to_lower, trim_space, cut_byte, split_byte, sort_texts,
}
use labview.Common.Map.{Map, lookup, insert, keys}
use labview.Payload.{CloudflareAccess, CloudflareRoute}

abbrev starts_with_dot : Text → Bool
starts_with_dot [] = false
starts_with_dot (c ∷ s) = c == b'.'

-- `afterPrefix`
unfoldable pub after_prefix : Text → Text → Option Text
after_prefix key prefix =
    let n = length prefix in
    if is_empty prefix || leb (length key) (n + 1)
    then none
    else if not (text_eq (to_lower (take n key)) (to_lower prefix))
        || not (starts_with_dot (drop n key))
    then none
    else some (drop (n + 1) key)

unfoldable pub truthy : Text → Bool
truthy v =
    contains (to_lower (trim_space v)) (codes "true" ∷ codes "1" ∷ codes "yes" ∷ codes "on" ∷ [])

unfoldable pub falsy : Text → Bool
falsy v =
    contains (to_lower (trim_space v)) (codes "false" ∷ codes "0" ∷ codes "no" ∷ codes "off" ∷ [])

unfoldable pub trimmed_parts : List Text → List Text
trimmed_parts [] = []
trimmed_parts (p ∷ ps) =
    let rest = trimmed_parts ps in if is_empty (trim_space p) then rest else trim_space p ∷ rest

unfoldable pub split_list : Text → List Text
split_list v = if is_empty (trim_space v) then [] else trimmed_parts (split_byte b',' v)

abbrev pub max_index : ℕ
max_index = 1_048_576

-- the loop of `cfSplitIndex`
unfoldable pub index_from : ℕ → Text → Option ℕ
index_from n [] = some n
index_from n (c ∷ s) =
    let next = n * 10 + (c - b'0') in
    let rest = index_from next s in
    if ltb c b'0' || ltb b'9' c then none else if ltb max_index next then none else rest

-- `cfSplitIndex`
unfoldable pub cf_split_index : Text → Option ℕ × Text
cf_split_index rest = elim (cut_byte b'.' rest) [
  | none ↦ (none, rest)
  | some (head, tail) ↦
      if is_empty head
      then (none, rest)
      else elim (index_from 0 head) [ none ↦ (none, rest) | some n ↦ (some n, tail) ]
]

unfoldable pub without_dashes : Text → Text
without_dashes [] = []
without_dashes (c ∷ s) =
    let rest = without_dashes s in if (c == b'_') || (c == b'-') then rest else c ∷ rest

abbrev pub known_fields : List Text
known_fields =
    codes "enable"
    ∷ codes "hostname"
    ∷ codes "service"
    ∷ codes "path"
    ∷ codes "access.group"
    ∷ codes "access.policy"
    ∷ codes "access.emails"
    ∷ []

-- `cfField`
unfoldable pub cf_field : Text → Text
cf_field field =
    let lower = to_lower field in
    if contains lower known_fields
    then lower
    else if text_eq (without_dashes lower) (codes "notlsverify")
    then codes "notlsverify"
    else []

pub record CfGroup : Type 0 where
  pub index : Option ℕ
  pub raw : Map Text
  pub fields : Map Text

abbrev pub same_index : Option ℕ → Option ℕ → Bool
same_index none none = true
same_index (some a) (some b) = a == b
same_index _ _ = false

abbrev pub index_lt : Option ℕ → Option ℕ → Bool
index_lt none (some b) = true
index_lt (some a) (some b) = ltb a b
index_lt _ none = false

-- one label, put into its group
abbrev put : Text → Text → Text → CfGroup → CfGroup
put key field value g = record g {
  raw = insert key value g.raw;
  fields = if is_empty field then g.fields else insert field value g.fields;
}

unfoldable pub add_label : Option ℕ → Text → Text → Text → List CfGroup → List CfGroup
add_label index key field value [] =
    put key field value (record { index = index; raw = []; fields = [] }) ∷ []
add_label index key field value (g ∷ groups) =
    if same_index g.index index
    then put key field value g ∷ groups
    else g ∷ add_label index key field value groups

abbrev value_of : Option Text → Text
value_of none = []
value_of (some v) = v

-- the loop over the sorted keys
unfoldable pub group_labels : Map Text → Text → List Text → List CfGroup → List CfGroup
group_labels lbls prefix [] groups = groups
group_labels lbls prefix (key ∷ ks) groups =
    group_labels lbls prefix ks (elim (after_prefix key prefix) [
      | none ↦ groups
      | some rest ↦
          let found : Option ℕ × Text = cf_split_index rest in
          add_label found.0 key (cf_field found.1) (value_of (lookup key lbls)) groups
    ])

-- `sort.Ints(order)`, as an insertion
unfoldable pub insert_group : CfGroup → List CfGroup → List CfGroup
insert_group g [] = g ∷ []
insert_group g (h ∷ groups) =
    if index_lt h.index g.index then h ∷ insert_group g groups else g ∷ h ∷ groups

unfoldable pub sort_groups : List CfGroup → List CfGroup
sort_groups [] = []
sort_groups (g ∷ groups) = insert_group g (sort_groups groups)

-- the flag of the flat group
unfoldable pub governing_of : List CfGroup → Option Text
governing_of [] = none
governing_of (g ∷ groups) =
    if same_index g.index none then lookup (codes "enable") g.fields else governing_of groups

abbrev field_of : CfGroup → Text → Text
field_of g name = trim_space (value_of (lookup name g.fields))

-- `cfAccess`
unfoldable pub cf_access : CfGroup → Option CloudflareAccess
cf_access g =
    let group = field_of g (codes "access.group") in
    let policy = field_of g (codes "access.policy") in
    let emails = split_list (value_of (lookup (codes "access.emails") g.fields)) in
    if is_empty group && is_empty policy && no_items emails
    then none
    else some (record { group = group; policy = policy; emails = emails })

abbrev pub route_of : CfGroup → CloudflareRoute
route_of g = record {
  hostname = field_of g (codes "hostname");
  service = field_of g (codes "service");
  path = field_of g (codes "path");
  access = cf_access g;
  no_tls_verify = elim (lookup (codes "notlsverify") g.fields) [
    | none ↦ none
    | some v ↦ some (truthy v)
  ];
  raw = g.raw;
  origin = none;
}

pub data CfNote : Type 0 where
  no_hostname : Option ℕ → CfNote
  odd_enable : Option ℕ → Text → Text → CfNote

-- the flag of a group: its own, or for an indexed one the governing one
unfoldable pub enable_of : Option Text → CfGroup → Option Text
enable_of governing g = elim (lookup (codes "enable") g.fields) [
  | some v ↦ some v
  | none ↦ if same_index g.index none then none else governing
]

abbrev pub switched_off : Option Text → Bool
switched_off none = false
switched_off (some v) = falsy v

abbrev is_odd : Option Text → Bool
is_odd none = false
is_odd (some v) = not (truthy v)

abbrev is_set : Option Text → Bool
is_set none = false
is_set (some v) = true

-- one turn of the loop over the groups
unfoldable pub read_group : Option Text → CfGroup → List CloudflareRoute × List CfNote
read_group governing g =
    let enable = enable_of governing g in
    if switched_off enable
    then ([], [])
    else if is_empty (field_of g (codes "hostname"))
    then (
      [],
      if same_index g.index none && (length g.fields == 1) && is_set enable
          then []
          else no_hostname g.index ∷ [],
    )
    else (
      route_of g ∷ [],
      if is_odd enable
          then odd_enable g.index (value_of enable) (field_of g (codes "hostname")) ∷ []
          else [],
    )

unfoldable pub read_groups : Option Text → List CfGroup → List CloudflareRoute × List CfNote
read_groups governing [] = ([], [])
read_groups governing (g ∷ groups) =
    let here = read_group governing g in
    let rest = read_groups governing groups in (here.0 ++ rest.0, here.1 ++ rest.1)

-- `Cloudflare`
unfoldable pub cloudflare : Map Text → Text → List CloudflareRoute × List CfNote
cloudflare lbls prefix =
    let groups = sort_groups (group_labels lbls prefix (sort_texts (keys lbls)) []) in
    read_groups (governing_of groups) groups
