-- ===== src/Access/Gate/Tests.antt =====
-- The theorems on the gate and on signing in at concrete inputs.
use labview.Common.{◌*◌, ◌≡◌, ◌↔◌, refl, true, false, [], ◌∷◌, none, some, arith}
use labview.Common.Text.{ascii, codes, text_eq, split_byte, contains, has_prefix, before}
use labview.Common.Map.{lookup}
use labview.Access.Throttle
use labview.Access.Throttle.{allow, failed, open_window, count_verdict}
use labview.Access.Revocations
use labview.Access.Session.{passwd, accepted, rejected, revoked, second, verify}
use labview.Access.Session.Tokens.{verify-mint}
use labview.Access.Session.Toy.{toy, signer, start, claims, token, minted}
use labview.Access.Cookies.{Request, session_token}
use labview.Access.Gate.{
  Library, Gate, Posture, served, guard, resolve, normalise, normal_path, collapse, trim_slash,
  api_path, public_path, too_many, ends_path,
}
use labview.Access.Gate.Paths.{IsCanonical, normalise-IsCanonical}
use labview.Access.Gate.Guarded.{IsLet, guard_protects_iff}
use labview.Access.Gate.Login.{
  Door, attempt, judge, wrong_password, with_throttle, throttle_of, signed_in, logout, live,
  verify_password,
}
use labview.Access.Gate.Login.Outcomes.{
  IsSignedIn, attempt_signs_in_iff, attempt_locks, attempt-verify, logout-verify,
}

-- No escape is decoded, and every origin is this host over http.
abbrev lib : Library
lib = record { codec = toy; unescape = some; parse = λ s. some (codes "http", codes "lab") }

abbrev gate : Gate
gate = record { signer = signer; cookies = record { name = []; secure = codes "auto" } }

abbrev posture : Posture
posture = record { enforced = true; methods = passwd ∷ []; passwd = (codes "bob", codes "pw") ∷ [] }

abbrev request : Request
request = record {
  method = codes "GET";
  path = codes "//api/overview/?x";
  host = codes "lab";
  tls = false;
  header = λ name. [];
  cookie = λ name. some token;
}

path_normal : normalise some (codes "//api/overview/?x") ≡ some (codes "/api/overview")
unfolding normalise before normal_path collapse trim_slash split_byte contains text_eq
path_normal = refl

normalise-IsCanonical_example :
    IsCanonical (codes "/api/overview")
    × (some (before ends_path (codes "/api/overview")) ≡ some (codes "/api/overview")
        → normalise some (codes "/api/overview") ≡ some (codes "/api/overview"))
normalise-IsCanonical_example =
    normalise-IsCanonical some (codes "//api/overview/?x") (codes "/api/overview") path_normal

path_api : api_path (codes "/api/overview") ≡ true
unfolding api_path text_eq has_prefix
path_api = refl

path_closed : public_path (codes "/api/overview") ≡ false
unfolding public_path contains text_eq
path_closed = refl

guard_protects_iff_example :
    (guard lib gate posture request (104 * second)
      ≡ served (resolve lib gate request (104 * second)))
    ↔ IsLet lib gate request (104 * second) (resolve lib gate request (104 * second))
guard_protects_iff_example =
    guard_protects_iff lib gate posture request (104 * second)
      (resolve lib gate request (104 * second)) (codes "/api/overview") refl path_normal path_api
      path_closed

abbrev door : Door
door = record { signer = signer; throttle = some (Throttle.new 1 (60 * second)) }

id_ascii : ascii (codes "id") ≡ true
unfolding ascii
id_ascii = refl

signs_in :
    (attempt toy text_eq door posture (codes "bob") (codes "pw") (some (codes "id")) start).1
    ≡ signed_in token claims
unfolding live allow throttle_of verify_password lookup text_eq
signs_in =
    (attempt_signs_in_iff toy text_eq door posture (codes "bob") (codes "pw") (some (codes "id"))
        start token claims).1
      (record { offered = refl; unlocked = refl; verified = refl; minted = minted })

attempt_signs_in_iff_example :
    ((attempt toy text_eq door posture (codes "bob") (codes "pw") (some (codes "id")) start).1
      ≡ signed_in token claims)
    ↔ IsSignedIn toy text_eq door posture
        (codes "bob")
        (codes "pw")
        (some (codes "id"))
        start
        token
        claims
attempt_signs_in_iff_example =
    attempt_signs_in_iff toy text_eq door posture (codes "bob") (codes "pw") (some (codes "id"))
      start token claims

attempt-verify_example :
    verify toy
      (attempt toy text_eq door posture
        (codes "bob")
        (codes "pw")
        (some (codes "id"))
        start).0.signer
      token
      (104 * second)
    ≡ accepted claims
unfolding Revocations.has lookup
attempt-verify_example =
    attempt-verify toy text_eq door posture (codes "bob") (codes "pw") (codes "id") start
      (104 * second) token claims signs_in refl refl id_ascii (omega arith) (omega arith) refl

carries : session_token gate.cookies request ≡ some token
unfolding session_token
carries = refl

token_verifies : verify toy signer token (50 * second) ≡ accepted claims
unfolding Revocations.has lookup
token_verifies =
    verify-mint toy signer (codes "id") (codes "bob") passwd start (50 * second) token claims minted
      refl refl refl id_ascii (omega arith) (omega arith) refl

logout-verify_example :
    verify toy (logout toy gate request (50 * second)).0 token (60 * second)
    ≡ rejected revoked (some claims)
logout-verify_example =
    logout-verify toy gate request (50 * second) (60 * second) token claims carries token_verifies
      (record { distinct = tt; bounded = omega arith }) (omega arith) (omega arith)

one_locks :
    (attempt toy text_eq door posture (codes "bob") (codes "no") none start).1.status ≡ too_many
unfolding attempt judge wrong_password with_throttle live allow throttle_of verify_password lookup
    text_eq failed open_window count_verdict
one_locks = refl

attempt_locks_example :
    attempt toy text_eq
      (attempt toy text_eq door posture (codes "bob") (codes "no") none start).0
      posture
      (codes "bob")
      (codes "pw")
      none
      start
    ≡ attempt toy text_eq door posture (codes "bob") (codes "no") none start
unfolding allow live verify_password lookup text_eq
attempt_locks_example =
    attempt_locks toy text_eq door (Throttle.new 1 (60 * second)) posture (codes "bob") (codes "no")
      (codes "pw") none none start refl (omega arith) refl refl refl one_locks
