-- ===== src/Access/Session.antt =====
-- internal/access/session.go: sessions are signed tokens, `v1.<payload>.<MAC>`, and a set of the
-- identifiers that were signed out.
--
-- Times are nanoseconds since the epoch, and a claim holds whole seconds. HMAC-SHA256, SHA-256,
-- unpadded base64url, JSON and randomness are the record `Codec` and arguments. `hmac.Equal` is
-- equality; that it takes constant time is not modelled. Errors are their kinds, without the prose.

pub mod Tokens
pub mod Toy
mod Tests
use labview.Common.{
  ℕ, ◌+◌, ◌*◌, ◌/◌, ◌≡◌, ◌≢◌, Bool, true, false, ◌&&◌, ◌||◌, not, List, [], ◌∷◌, ◌++◌, Option, none,
  some, leb, ltb, ◌==◌, if◌then◌else◌, length,
}
use labview.Common.Text.{Text, codes, text_eq, is_empty, has_byte, cut_byte, ascii}
use labview.Common.Map.{Map}
use labview.Access.Username.{username}
use labview.Access.Revocations

abbrev pub max_token_bytes : ℕ
max_token_bytes = 1024

abbrev pub token_version : Text
token_version = codes "v1"

abbrev pub second : ℕ
second = 1_000_000_000

abbrev pub session_ttl_floor : ℕ
session_ttl_floor = 60 * second

abbrev pub default_session_ttl : ℕ
default_session_ttl = 43_200 * second

-- A string type: the two methods that it names, and whatever else a token may write.
pub data LoginMethod : Type 0 where
  passwd oidc : LoginMethod
  other_method : Text → LoginMethod

abbrev pub is_known : LoginMethod → Bool
is_known passwd = true
is_known oidc = true
is_known (other_method name) = false

-- An `int64`, with its bounds beside it.
pub data ℤ : Type 0 where
  pos : ℕ → ℤ
  negsuc : ℕ → ℤ

pub data SessionRejection : Type 0 where
  malformed signature expired revoked : SessionRejection

abbrev pub is_int64 : ℤ → Bool
is_int64 (pos n) = ltb n 9_223_372_036_854_775_808
is_int64 (negsuc n) = ltb n 9_223_372_036_854_775_808

pub record Claims : Type 0 where
  pub u : Text
  pub via : LoginMethod
  pub iat : ℤ
  pub exp : ℤ
  pub jti : Text

abbrev pub fits : Claims → Bool
fits c = is_int64 c.iat && is_int64 c.exp

-- What the standard library does for a session: `hmac` under a key, `sha256`, base64url without
-- padding, and JSON. The laws are its documentation: a decoder undoes its encoder, which JSON does for
-- a known method, an `int64` and texts of ASCII bytes (it replaces bytes that are not UTF-8), base64url writes no dot, a MAC is not
-- empty, and neither is the encoding of what is not empty.
pub record Codec : Type 0 where
  pub hmac : Text → Text → Text
  pub sha256 : Text → Text
  pub enc : Text → Text
  pub dec : Text → Option Text
  pub marshal : Claims → Text
  pub unmarshal : Text → Option Claims
  pub dec-enc : (b : Text) → dec (enc b) ≡ some b
  pub has_byte-enc : (b : Text) → has_byte b'.' (enc b) ≡ false
  pub enc-ne : (b : Text) → is_empty b ≡ false → is_empty (enc b) ≡ false
  pub hmac-ne : (k b : Text) → is_empty (hmac k b) ≡ false
  pub marshal-ne : (c : Claims) → is_empty (marshal c) ≡ false
  pub unmarshal-marshal :
      (c : Claims)
      → is_known c.via ≡ true
      → fits c ≡ true
      → ascii c.u ≡ true
      → ascii c.jti ≡ true
      → unmarshal (marshal c) ≡ some c

pub record Signer : Type 0 where
  pub secret : Text
  pub ttl : ℕ
  pub held : Map ℕ

abbrev pub unix : ℕ → ℕ
unix t = t / second

-- No clock here is before the epoch, so an expiry before it is like one at it: nothing is before that.
abbrev pub from_epoch : ℤ → ℕ
from_epoch (pos n) = n
from_epoch (negsuc n) = 0

abbrev pub is_zero : ℤ → Bool
is_zero (pos n) = n == 0
is_zero (negsuc n) = false

abbrev pub expiry : Claims → ℕ
expiry c = from_epoch c.exp * second

-- `(Claims{}, kind, err)`, `(claims, kind, err)` and `(claims, "", nil)`
pub data Verified : Type 0 where
  rejected : SessionRejection → Option Claims → Verified
  accepted : Claims → Verified

unfoldable pub cut : Text → Option (Text × Text × Text)
cut token = elim (cut_byte b'.' token) [
  | none ↦ none
  | some (version, rest) ↦ elim (cut_byte b'.' rest) [
    | none ↦ none
    | some (body, mac) ↦
        if is_empty body || is_empty mac || has_byte b'.' mac
        then none
        else some (version, body, mac)
  ]
]

module _ (codec : Codec) where
  open codec use {hmac, sha256, enc, dec, marshal, unmarshal}

  pub new_signer : Text → ℕ → Signer
  new_signer secret ttl = record {
    secret = if ltb (length secret) 32 then sha256 secret else secret;
    ttl = if ltb ttl session_ttl_floor then default_session_ttl else ttl;
    held = [];
  }

  pub equal_hashed : Text → Text → Bool
  equal_hashed a b = text_eq (sha256 a) (sha256 b)

  abbrev pub new_claims : Signer → Text → Text → LoginMethod → ℕ → Claims
  new_claims s jti user via now = record {
    u = username user;
    via = via;
    iat = pos (unix now);
    exp = pos (unix (now + s.ttl));
    jti = jti;
  }

  -- `rand.Read` gives the identifier, or fails. `json.Marshal` of this struct does not.
  unfoldable pub mint : Signer → Option Text → Text → LoginMethod → ℕ → Option (Text × Claims)
  mint s none user via now = none
  mint s (some jti) user via now =
      let claims = new_claims s jti user via now in
      let encoded = enc (marshal claims) in
      some (token_version ++ b'.' ∷ (encoded ++ b'.' ∷ enc (hmac s.secret encoded)), claims)

  -- the checks on the claims, behind the MAC
  unfoldable pub verify_claims : Signer → Option Claims → ℕ → Verified
  verify_claims s none now = rejected malformed none
  verify_claims s (some c) now =
      if is_empty c.u || is_empty c.jti || is_zero c.exp
      then rejected malformed none
      else if not (ltb now (expiry c))
      then rejected expired (some c)
      else if Revocations.has c.jti s.held
      then rejected revoked (some c)
      else accepted c

  -- `dec(body)` and `json.Unmarshal`
  read_claims : Text → Option Claims
  read_claims body = elim (dec body) [ none ↦ none | some raw ↦ unmarshal raw ]

  verify_parts : Signer → Text → Text → Text → ℕ → Verified
  unfolding equal_hashed read_claims
  verify_parts s version body mac now =
      if not (text_eq version token_version) then rejected malformed none else elim (dec mac) [
        | none ↦ rejected malformed none
        | some given ↦
            if not (equal_hashed given (hmac s.secret body))
            then rejected signature none
            else verify_claims s (read_claims body) now
      ]

  unfoldable pub verify : Signer → Text → ℕ → Verified
  unfolding verify_parts
  verify s token now =
      if ltb max_token_bytes (length token) then rejected malformed none else elim (cut token) [
        | none ↦ rejected malformed none
        | some (version, body, mac) ↦ verify_parts s version body mac now
      ]

-- `Revoke`
unfoldable pub revoke : Signer → Claims → ℕ → Signer
revoke s c now = record s {
  held = Revocations.add Revocations.max_revocations c.jti (expiry c) now s.held;
}
