-- ===== src/Fleet/Address.antt =====
-- internal/fleet/addr.go: an origin or endpoint address, split into its parts.

pub mod Written
mod Tests
use labview.Common.{
  ℕ, Bool, true, false, ◌&&◌, ◌||◌, not, List, [], ◌∷◌, ◌++◌, Option, none, some, ◌==◌,
  if◌then◌else◌, drop,
}
use labview.Common.Text.{
  Text, codes, text_eq, is_empty, has_byte, has_prefix, cut_byte, before, to_lower, trim_space,
}
use labview.Secrets.{cut_mark, cut_last}

pub data PortSource : Type 0 where
  port_absent port_written port_scheme : PortSource

pub record Address : Type 0 where
  pub raw : Text
  pub scheme : Text
  pub host : Text
  pub port : Text
  pub port_from : PortSource
  pub path : Text

-- `schemePorts`, the empty text where it has no entry
abbrev pub scheme_port : Text → Text
scheme_port scheme =
    if text_eq scheme (codes "http")
    then codes "80"
    else if text_eq scheme (codes "https")
    then codes "443"
    else []

-- the bytes of `"/?#"`
abbrev pub opens_path : ℕ → Bool
opens_path c = (c == b'/') || (c == b'?') || (c == b'#')

-- what is left from the first of them
unfoldable pub path_of : Text → Text
path_of [] = []
path_of (x ∷ xs) = if opens_path x then x ∷ xs else path_of xs

-- whether `strings.IndexAny(s, "/?#")` finds one
unfoldable pub has_path : Text → Bool
has_path [] = false
has_path (x ∷ xs) = opens_path x || has_path xs

-- `strings.TrimSuffix(s, "]")`
unfoldable pub trim_bracket : Text → Text
trim_bracket [] = []
trim_bracket (c ∷ []) = if c == b']' then [] else c ∷ []
trim_bracket (c ∷ d ∷ s) = c ∷ trim_bracket (d ∷ s)

-- the scheme, and what follows it
unfoldable pub split_scheme : Text → Text × Text
split_scheme s = elim (cut_mark s) [
  | none ↦ ([], s)
  | some (scheme, rest) ↦ (to_lower scheme, rest)
]

-- `rest` without credentials: the last `@` counts, unless a path opens before it
unfoldable pub drop_credentials : Text → Text
drop_credentials rest = elim (cut_last b'@' rest) [
  | none ↦ rest
  | some (userinfo, host) ↦ if has_path userinfo then rest else host
]

unfoldable pub split_host_port : Text → Text × Text
split_host_port authority =
    if has_prefix authority (codes "[")
    then elim (cut_byte b']' authority) [
      | none ↦ (authority, [])
      | some (host, rest) ↦
          (host ++ b']' ∷ [], if has_prefix rest (codes ":") then drop 1 rest else [])
    ]
    else elim (cut_last b':' authority) [
      | none ↦ (authority, [])
      | some (host, port) ↦ if has_byte b':' host then (authority, []) else (host, port)
    ]

abbrev trim_open : Text → Text
trim_open s = if has_prefix s (codes "[") then drop 1 s else s

-- what the address says once its authority is known
abbrev of_authority : Text → Text → Text → Text × Text → Address
of_authority raw scheme path (host, port) =
    let known = scheme_port scheme in
    record {
      raw = raw;
      scheme = scheme;
      host = to_lower (trim_bracket (trim_open host));
      port = if not (is_empty port) then port else known;
      port_from =
          if not (is_empty port)
          then port_written
          else if not (is_empty known)
          then port_scheme
          else port_absent;
      path = path;
    }

-- `ParseAddress`
unfoldable pub parse_address : Text → Address
parse_address raw =
    let (scheme, rest) = split_scheme (trim_space raw) in
    let bare = drop_credentials rest in
    of_authority raw scheme (path_of bare) (split_host_port (before opens_path bare))

-- The tests on a host; `parse_ip` is `net.ParseIP`, whether it is not nil.
module _ (parse_ip : Text → Bool) where
  abbrev pub is_ip : Address → Bool
  is_ip a = not (is_empty a.host) && parse_ip a.host

  abbrev pub is_bare_name : Address → Bool
  is_bare_name a = not (is_empty a.host) && not (is_ip a) && not (has_byte b'.' a.host)

  abbrev pub is_fqdn : Address → Bool
  is_fqdn a = not (is_empty a.host) && not (is_ip a) && has_byte b'.' a.host
