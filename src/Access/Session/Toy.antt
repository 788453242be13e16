-- ===== src/Access/Session/Toy.antt =====
-- A codec that meets the laws, and a session that a signer minted with it, for the tests.
use labview.Common.{
  ℕ, ◌+◌, ◌-◌, ◌*◌, ◌≡◌, refl, ap, true, false, List, [], ◌∷◌, ◌++◌, map, Option, none, some, arith,
  length, take, drop, if◌then◌else◌, ◌==◌,
}
use labview.Common.Text.{Text, codes, is_empty, has_byte}
use labview.Access.Username.{username, valid_username, username_bytes, username_byte}
use labview.Access.Session.{
  Codec, Signer, Claims, LoginMethod, passwd, oidc, other_method, is_known, ℤ, pos, negsuc,
  token_version, second, mint,
}
use labview.Access.Session.Tokens.{joined}

-- Bytes moved past the dot, and claims written as numbers: a stand-in for base64url and JSON.
abbrev pub shift_up : Text → Text
shift_up = map (λ b. b + 47)

abbrev shift_down : Text → Text
shift_down = map (λ b. b - 47)

abbrev via_number : LoginMethod → ℕ
via_number passwd = 0
via_number oidc = 1
via_number (other_method name) = 2

abbrev sign : ℤ → ℕ
sign (pos n) = 0
sign (negsuc n) = 1

abbrev size : ℤ → ℕ
size (pos n) = n
size (negsuc n) = n

abbrev signed : ℕ → ℕ → ℤ
signed s n = if s == 0 then pos n else negsuc n

signed-size : (z : ℤ) → signed (sign z) (size z) ≡ z
signed-size (pos n) = refl
signed-size (negsuc n) = refl

abbrev number_via : ℕ → LoginMethod
number_via n = if n == 0 then passwd else oidc

abbrev pub write : Claims → Text
write c =
    via_number c.via
    ∷ sign c.iat
    ∷ size c.iat
    ∷ sign c.exp
    ∷ size c.exp
    ∷ length c.u
    ∷ (c.u ++ c.jti)

abbrev read : Text → Option Claims
read (via ∷ s ∷ iat ∷ t ∷ exp ∷ n ∷ rest) = some (record {
  u = take n rest;
  via = number_via via;
  iat = signed s iat;
  exp = signed t exp;
  jti = drop n rest;
})
read _ = none

take-append {ℓ} : {A : Type ℓ} (xs ys : List A) → take (length xs) (xs ++ ys) ≡ xs
take-append [] ys = refl
take-append (x ∷ xs) ys = ap (λ t. x ∷ t) (take-append xs ys)

drop-append {ℓ} : {A : Type ℓ} (xs ys : List A) → drop (length xs) (xs ++ ys) ≡ ys
drop-append [] [] = refl
drop-append [] (y ∷ ys) = refl
drop-append (x ∷ xs) ys = drop-append xs ys

pub shift_down-up : (s : Text) → shift_down (shift_up s) ≡ s
shift_down-up [] = refl
shift_down-up (b ∷ s) = ground (arith, shift_down-up s)

pub has_byte-shift_up : (s : Text) → has_byte b'.' (shift_up s) ≡ false
unfolding has_byte
has_byte-shift_up [] = refl
has_byte-shift_up (b ∷ s) = ground (arith, has_byte-shift_up s)

pub shift_up-ne : (s : Text) → is_empty s ≡ false → is_empty (shift_up s) ≡ false
shift_up-ne [] h = h
shift_up-ne (b ∷ s) h = refl

number_via-number : (v : LoginMethod) → is_known v ≡ true → number_via (via_number v) ≡ v
number_via-number passwd h = refl
number_via-number oidc h = refl
number_via-number (other_method name) h = absurd (ground (arith, h))

pub read-write : (c : Claims) → is_known c.via ≡ true → read (write c) ≡ some c
read-write c h =
    rw
      (
        take-append c.u c.jti,
        drop-append c.u c.jti,
        number_via-number c.via h,
        signed-size c.iat,
        signed-size c.exp,
      )
      refl

abbrev pub toy : Codec
toy = record {
  hmac = λ k b. 7 ∷ (k ++ b);
  sha256 = λ s. s;
  enc = shift_up;
  dec = λ s. some (shift_down s);
  marshal = write;
  unmarshal = read;
  dec-enc = λ b. ap some (shift_down-up b);
  has_byte-enc = has_byte-shift_up;
  enc-ne = shift_up-ne;
  hmac-ne = λ k b. refl;
  marshal-ne = λ c. refl;
  unmarshal-marshal = λ c k f u j. read-write c k;
}

abbrev pub signer : Signer
signer = record { secret = codes "k"; ttl = 100 * second; held = [] }

abbrev pub start : ℕ
start = 5 * second

abbrev pub claims : Claims
claims = record { u = codes "bob"; via = passwd; iat = pos 5; exp = pos 105; jti = codes "id" }

abbrev pub body : Text
body = shift_up (write claims)

abbrev pub token : Text
token = joined token_version body (shift_up (7 ∷ (codes "k" ++ body)))

pub minted : mint toy signer (some (codes "id")) (codes "bob") passwd start ≡ some (token, claims)
unfolding mint username valid_username username_bytes username_byte
minted = refl
