-- ===== src/Access/Gate.antt =====
-- internal/access/gate.go: what the gate answers a request with.
--
-- `url.PathUnescape` and `url.Parse` are arguments: `unescape` of a path, and the scheme and the
-- host of an origin. Names are compared by ASCII case folding. A posture is what the gate and the
-- login read of one. What `refuse` writes and what it logs are one answer.

pub mod Paths
pub mod Guarded
pub mod Login
mod Tests
use labview.Common.{
  ℕ, Bool, true, false, ◌&&◌, ◌||◌, not, List, [], ◌∷◌, ◌++◌, Option, none, some, ltb, leb, ◌==◌,
  if◌then◌else◌, length,
}
use labview.Common.Text.{
  Text, codes, text_eq, is_empty, before, split_byte, has_prefix, contains, to_lower, trim_space,
}
use labview.Common.Map.{Map, insert}
use labview.Access.Username.{username, unknown_username}
use labview.Access.Session.{
  Codec, Signer, Claims, LoginMethod, SessionRejection, accepted, rejected, verify,
}
use labview.Access.Cookies.{Request, Cookies, effective_scheme, session_token, first_value}

-- `IndexAny(path, "?#")`
abbrev pub ends_path : ℕ → Bool
ends_path b = (b == b'?') || (b == b'#')

-- the loop of `Normalise`, behind its first byte: a slash behind a slash is skipped
unfoldable pub collapse : ℕ → Text → Text
collapse previous [] = []
collapse previous (b ∷ s) =
    if (b == b'/') && (previous == b'/') then collapse b s else b ∷ collapse b s

-- `TrimSuffix(path, "/")`
unfoldable pub trim_slash : Text → Text
trim_slash [] = []
trim_slash (b ∷ []) = if b == b'/' then [] else b ∷ []
trim_slash (b ∷ c ∷ s) = b ∷ trim_slash (c ∷ s)

-- what `Normalise` does behind the decoding
unfoldable pub normal_path : Text → Option Text
normal_path [] = some (codes "/")
normal_path (b ∷ s) =
    let path = b ∷ collapse b s in
    if not (b == b'/')
    then none
    else if contains (codes "..") (split_byte b'/' path)
    then none
    else some (if ltb 1 (length path) then trim_slash path else path)

unfoldable pub normalise : (Text → Option Text) → Text → Option Text
normalise unescape path = elim (unescape (before ends_path path)) [
  | none ↦ none
  | some decoded ↦ normal_path decoded
]

abbrev pub public_paths : List Text
public_paths =
    codes "/api/healthz" ∷ codes "/api/session" ∷ codes "/api/login" ∷ codes "/api/logout" ∷ []

unfoldable pub public_path : Text → Bool
public_path path = contains path public_paths

unfoldable pub api_path : Text → Bool
api_path path = text_eq path (codes "/api") || has_prefix path (codes "/api/")

pub record SessionUser : Type 0 where
  pub name : Text
  pub via : LoginMethod

-- `Claims.User`
abbrev pub user_of : Claims → SessionUser
user_of c = record { name = username c.u; via = c.via }

pub record Viewer : Type 0 where
  pub user : Option SessionUser
  pub name : Text
  pub kind : Option SessionRejection

pub record Posture : Type 0 where
  pub enforced : Bool
  pub methods : List LoginMethod
  pub passwd : Map Text

pub data Status : Type 0 where
  ok bad_request unauthorized forbidden too_many service_unavailable : Status

pub record Rejection : Type 0 where
  pub path : Text
  pub username : Text
  pub kind : Option SessionRejection
  pub status : Status

-- A request goes on to the handlers with its viewer, or is refused.
pub data Answer : Type 0 where
  served : Viewer → Answer
  refused : Status → Text → Rejection → Answer

-- the body that `refuse` writes
abbrev pub refusal_body : Status → Text
refusal_body unauthorized = codes "{\"error\":\"authentication required\"}"
refusal_body forbidden = codes "{\"error\":\"forbidden\"}"
refusal_body _ = codes "{\"error\":\"bad request\"}"

abbrev pub refuse : Status → Text → Text → Option SessionRejection → Answer
refuse status path name kind =
    refused status (refusal_body status)
      (record { path = path; username = name; kind = kind; status = status })

-- `hosts`
unfoldable pub hosts : Request → List Text
hosts r =
    let forwarded = r.header (codes "X-Forwarded-Host") in
    r.host ∷ (if is_empty forwarded then [] else trim_space (first_value forwarded) ∷ [])

-- the loop over them in `checkOrigin`
unfoldable pub host_allowed : Text → List Text → Bool
host_allowed origin [] = false
host_allowed origin (h ∷ hs) =
    if not (is_empty h) && text_eq (to_lower origin) (to_lower h)
    then true
    else host_allowed origin hs

-- whether `checkOrigin` allows a request
unfoldable pub check_origin : (Text → Option (Text × Text)) → Request → Bool
check_origin parse r =
    let origin = r.header (codes "Origin") in
    if is_empty origin
    then true
    else if text_eq origin (codes "null")
    then false
    else elim (parse origin) [
      | none ↦ false
      | some (scheme, host) ↦
          if is_empty host
          then false
          else if not (text_eq scheme (effective_scheme r))
          then false
          else host_allowed host (hosts r)
    ]

-- The library functions that the gate calls.
pub record Library : Type 0 where
  pub codec : Codec
  pub unescape : Text → Option Text
  pub parse : Text → Option (Text × Text)

pub record Gate : Type 0 where
  pub signer : Signer
  pub cookies : Cookies

module _ (lib : Library) where
  unfoldable pub resolve : Gate → Request → ℕ → Viewer
  resolve g r now = elim (session_token g.cookies r) [
    | none ↦ record { user = none; name = unknown_username; kind = none }
    | some token ↦ elim (verify lib.codec g.signer token now) [
      | rejected kind none ↦ record { user = none; name = username []; kind = some kind }
      | rejected kind (some c) ↦ record { user = none; name = username c.u; kind = some kind }
      | accepted c ↦ record { user = some (user_of c); name = username c.u; kind = none }
    ]
  ]

  -- the end of `Guard`, with the viewer
  unfoldable pub guard_viewer : Text → Viewer → Answer
  guard_viewer path viewer =
      if not (api_path path) || public_path path then served viewer else elim viewer.user [
        | none ↦ refuse unauthorized path viewer.name viewer.kind
        | some user ↦ served viewer
      ]

  unfoldable pub guard : Gate → Posture → Request → ℕ → Answer
  guard g posture r now = elim (normalise lib.unescape r.path) [
    | none ↦ refuse bad_request (codes "(unparseable)") unknown_username none
    | some path ↦
        if not posture.enforced
        then served (resolve g r now)
        else if text_eq r.method (codes "POST") && not (check_origin lib.parse r)
        then refuse forbidden path unknown_username none
        else guard_viewer path (resolve g r now)
  ]

  -- what `Headers` adds to a response
  unfoldable pub headers : Posture → Request → Map Text
  headers posture r =
      let base = insert (codes "X-Frame-Options") (codes "DENY") (
        insert (codes "Referrer-Policy") (codes "same-origin")
          (insert (codes "X-Content-Type-Options") (codes "nosniff") [])) in
      elim (normalise lib.unescape r.path) [
        | none ↦ base
        | some path ↦
            if api_path path && posture.enforced
            then insert (codes "Cache-Control") (codes "no-store") base
            else base
      ]
