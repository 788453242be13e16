-- ===== src/Access/Cookies.antt =====
-- internal/access/session.go, the session cookie, and the scheme that the client used.
--
-- A request is what the package reads of one: `header` answers the empty text for a header that is
-- absent, `cookie` answers nothing for a cookie that is absent.
use labview.Common.{ℕ, ◌/◌, [], Bool, true, false, ◌||◌, Option, none, some, if◌then◌else◌, ◌==◌}
use labview.Common.Text.{Text, codes, text_eq, is_empty, trim_space, before, to_lower}
use labview.Access.Session.{second}

pub record Request : Type 0 where
  pub method : Text
  pub path : Text
  pub host : Text
  pub tls : Bool
  pub header : Text → Text
  pub cookie : Text → Option Text

abbrev pub default_cookie_name : Text
default_cookie_name = codes "labview_session"

pub record Cookies : Type 0 where
  pub name : Text
  pub secure : Text

pub data SameSite : Type 0 where
  lax : SameSite

pub data MaxAge : Type 0 where
  seconds : ℕ → MaxAge
  delete : MaxAge

pub record Cookie : Type 0 where
  pub name : Text
  pub value : Text
  pub path : Text
  pub http_only : Bool
  pub same_site : SameSite
  pub secure : Bool
  pub max_age : MaxAge

unfoldable pub cookie_name : Cookies → Text
cookie_name c = if is_empty (trim_space c.name) then default_cookie_name else c.name

-- the value of `X-Forwarded-Proto` before the first comma
unfoldable pub first_value : Text → Text
first_value forwarded = before (λ b. b == b',') forwarded

unfoldable pub effective_scheme : Request → Text
effective_scheme r =
    let forwarded = r.header (codes "X-Forwarded-Proto") in
    let scheme = to_lower (trim_space (first_value forwarded)) in
    let seen = if r.tls then codes "https" else codes "http" in
    if is_empty forwarded
    then seen
    else if text_eq scheme (codes "https") || text_eq scheme (codes "http")
    then scheme
    else seen

unfoldable pub secure : Cookies → Request → Bool
secure c r =
    if text_eq c.secure (codes "true")
    then true
    else if text_eq c.secure (codes "false")
    then false
    else text_eq (effective_scheme r) (codes "https")

-- `Set`
unfoldable pub set : Cookies → Request → Text → ℕ → Cookie
set c r token ttl = record {
  name = cookie_name c;
  value = token;
  path = codes "/";
  http_only = true;
  same_site = lax;
  secure = secure c r;
  max_age = seconds (ttl / second);
}

-- `Clear`
unfoldable pub clear : Cookies → Request → Cookie
clear c r = record {
  name = cookie_name c;
  value = [];
  path = codes "/";
  http_only = true;
  same_site = lax;
  secure = secure c r;
  max_age = delete;
}

-- `Token`: nothing is `ErrNoSession`.
unfoldable pub session_token : Cookies → Request → Option Text
session_token c r = elim (r.cookie (cookie_name c)) [
  | none ↦ none
  | some value ↦ if is_empty value then none else some value
]
