-- ===== src/Access/Gate/Login.antt =====
-- internal/access/login.go: the order in which an attempt to sign in is judged.
--
-- `bcrypt.CompareHashAndPassword` is an argument. The comparison with a decoy, whose result is
-- dropped, and the sentences for the log are left out.

pub mod Outcomes
use labview.Common.{
  ℕ, Bool, true, false, ◌&&◌, ◌||◌, not, List, [], ◌∷◌, Option, none, some, map, ltb, ◌==◌,
  if◌then◌else◌, length,
}
use labview.Common.Text.{text_eq, Text}
use labview.Common.Map.{Map, lookup}
use labview.Access.Username.{username}
use labview.Access.Throttle
use labview.Access.Throttle.{Throttle, Verdict, allow, failed, succeeded}
use labview.Access.Session.{
  Codec, Signer, Claims, LoginMethod, passwd, oidc, other_method, accepted, rejected, revoked, mint,
  verify, revoke,
}
use labview.Access.Cookies.{Request, Cookies, Cookie, session_token, clear}
use labview.Access.Gate.{Gate, Posture, Status, ok, unauthorized, too_many, service_unavailable}

pub data LoginFailure : Type 0 where
  credentials throttled method_unavailable : LoginFailure

pub record Login : Type 0 where
  pub token : Text
  pub claims : Option Claims
  pub ok : Bool
  pub status : Status
  pub reason : Option LoginFailure
  pub retry_after : ℕ
  pub username : Text

abbrev pub max_password_chars : ℕ
max_password_chars = 1024

abbrev pub same_method : LoginMethod → LoginMethod → Bool
same_method passwd passwd = true
same_method oidc oidc = true
same_method (other_method a) (other_method b) = text_eq a b
same_method _ _ = false

-- `Posture.Live`
unfoldable pub live : LoginMethod → List LoginMethod → Bool
live m [] = false
live m (have ∷ methods) = if same_method have m then true else live m methods

-- `Verify` of the passwd table
unfoldable pub verify_password : (Text → Text → Bool) → Map Text → Text → Text → Bool
verify_password compare table user password =
    if ltb max_password_chars (length password)
    then false
    else elim (lookup user table) [ none ↦ false | some hash ↦ compare hash password ]

-- What a sign-in reads and writes: the signer, and the throttle where there is one.
pub record Door : Type 0 where
  pub signer : Signer
  pub throttle : Option Throttle

abbrev pub unthrottled : Throttle
unthrottled = Throttle.new 0 0

unfoldable pub throttle_of : Door → Throttle
throttle_of d = elim d.throttle [ none ↦ unthrottled | some t ↦ t ]

-- What a method of the throttle wrote. It writes nothing where there is none: `Max` is 0 then.
unfoldable pub with_throttle : Door → Throttle → Door
with_throttle d t = record d { throttle = elim d.throttle [ none ↦ none | some old ↦ some t ] }

abbrev pub refusal : Text → Status → LoginFailure → ℕ → Login
refusal user status reason retry_after = record {
  token = [];
  claims = none;
  ok = false;
  status = status;
  reason = some reason;
  retry_after = retry_after;
  username = username user;
}

abbrev pub signed_in : Text → Claims → Login
signed_in token c = record {
  token = token;
  claims = some c;
  ok = true;
  status = Status.ok;
  reason = none;
  retry_after = 0;
  username = c.u;
}

-- the branch of `Attempt` for a password that did not verify
unfoldable pub wrong_password : Door → Text → ℕ → Door × Login
wrong_password d user now =
    let (t, verdict) = failed (throttle_of d) user now in
    (
      with_throttle d t,
      if verdict.locked
          then refusal user too_many throttled verdict.retry_after
          else refusal user unauthorized credentials 0,
    )

module _ (codec : Codec) (compare : Text → Text → Bool) where
  -- behind the lock: `jti` is what the random source gives
  unfoldable pub judge : Door → Posture → Text → Text → Option Text → ℕ → Door × Login
  judge d posture user password jti now =
      if not (verify_password compare posture.passwd user password)
      then wrong_password d user now
      else elim (mint codec d.signer jti user passwd now) [
        | none ↦ (d, refusal user service_unavailable method_unavailable 0)
        | some (token, c) ↦ (with_throttle d (succeeded (throttle_of d) user), signed_in token c)
      ]

  unfoldable pub attempt : Door → Posture → Text → Text → Option Text → ℕ → Door × Login
  attempt d posture user password jti now =
      if not (live passwd posture.methods)
      then (d, refusal user service_unavailable method_unavailable 0)
      else let verdict = allow (throttle_of d) user now in
        if verdict.locked
        then (d, refusal user too_many throttled verdict.retry_after)
        else judge d posture user password jti now

  unfoldable pub accept : Door → Posture → Text → LoginMethod → Option Text → ℕ → Login
  accept d posture user via jti now =
      if not (live via posture.methods)
      then refusal user service_unavailable method_unavailable 0
      else elim (mint codec d.signer jti user via now) [
        | none ↦ refusal user service_unavailable method_unavailable 0
        | some (token, c) ↦ signed_in token c
      ]

-- `Logout`: the signer afterwards, and the cookie that clears the session.
unfoldable pub logout : Codec → Gate → Request → ℕ → Signer × Cookie
logout codec g r now = (
  elim (session_token g.cookies r) [
    | none ↦ g.signer
    | some token ↦ elim (verify codec g.signer token now) [
      | accepted c ↦ revoke g.signer c now
      | rejected revoked (some c) ↦ revoke g.signer c now
      | rejected _ _ ↦ g.signer
    ]
  ],
  clear g.cookies r,
)
