-- ===== src/Access/Username.antt =====
-- internal/access/username.go: the only names that reach a log line, a payload or the throttle.
use labview.Common.{
  ℕ, ◌≤◌, ◌<◌, ◌≡◌, ◌⊎◌, inl, inr, refl, Bool, true, false, ◌&&◌, ◌||◌, not, [], ◌∷◌, map, arith,
  leb, ◌==◌, if◌then◌else◌, length, All,
}
use labview.Common.Text.{Text, ascii, codes, to_lower, lower_byte, is_empty}

abbrev pub max_username : ℕ
max_username = 64

abbrev pub unknown_username : Text
unknown_username = codes "?"

unfoldable pub username_byte : ℕ → Bool
username_byte b =
    (leb b'a' b && leb b b'z')
    || (leb b'A' b && leb b b'Z')
    || (leb b'0' b && leb b b'9')
    || (b == b'.')
    || (b == b'_')
    || (b == b'@')
    || (b == b'-')

-- the loop of `ValidUsername`
unfoldable pub username_bytes : Text → Bool
username_bytes [] = true
username_bytes (b ∷ s) = if not (username_byte b) then false else username_bytes s

unfoldable pub valid_username : Text → Bool
unfolding username_bytes
valid_username s =
    if length s == 0 || not (leb (length s) max_username) then false else username_bytes s

unfoldable pub username : Text → Text
username s = if valid_username s then s else unknown_username

unfoldable pub throttle_key : Text → Text
throttle_key s = to_lower (username s)

-- The bytes that a key may hold: the pattern's without capitals, and the fallback's `?`.
abbrev pub IsKeyByte : ℕ → Type 0
IsKeyByte b = ((username_byte b || (b == b'?')) ≡ true) × ((leb b'A' b && leb b b'Z') ≡ false)

username_byte-lower : (b : ℕ) → username_byte b ≡ true → IsKeyByte (lower_byte b)
unfolding username_byte
username_byte-lower b h = ground arith

username_bytes-lower : (s : Text) → username_bytes s ≡ true → All IsKeyByte (map lower_byte s)
unfolding username_bytes
username_bytes-lower [] h = tt
username_bytes-lower (b ∷ s) h =
    (username_byte-lower b (ground arith), username_bytes-lower s (ground arith))

length-lower : (s : Text) → length (map lower_byte s) ≡ length s
length-lower [] = refl
length-lower (b ∷ s) = ground (arith, length-lower s)

-- A sanitised name satisfies the pattern, or is the fallback.
username-cases :
    (s : Text) → ((valid_username s ≡ true) × (username s ≡ s)) ⊎ (username s ≡ unknown_username)
unfolding username
username-cases s = ground arith

abbrev IsKey : Text → Type 0
IsKey k = (0 < length k) × (length k ≤ max_username) × All IsKeyByte k

valid-IsKey : (s : Text) → valid_username s ≡ true → IsKey (to_lower s)
unfolding to_lower valid_username
valid-IsKey s v = (
  ground (arith, length-lower s),
  ground (arith, length-lower s),
  username_bytes-lower s (ground arith),
)

unknown-IsKey : IsKey (to_lower unknown_username)
unfolding to_lower username_byte
unknown-IsKey = (omega arith, omega arith, ((refl, refl), tt))

-- Whatever came off the wire, a key is 1 to 64 bytes of the lower-case pattern or of the fallback.
pub throttle_key_bounds :
    (s : Text)
    → (0 < length (throttle_key s))
      × (length (throttle_key s) ≤ max_username)
      × All IsKeyByte (throttle_key s)
unfolding throttle_key
throttle_key_bounds s = elim (username-cases s) [
  | inl (v, e) ↦ rw e (valid-IsKey s v)
  | inr e ↦ rw e unknown-IsKey
]

-- Names that differ in the case of their letters alone share a key.
lower-lower : (s : Text) → map lower_byte (map lower_byte s) ≡ map lower_byte s
lower-lower [] = refl
lower-lower (b ∷ s) = ground (arith, lower-lower s)

-- A sanitised name is never empty.
pub username-ne : (s : Text) → is_empty (username s) ≡ false
unfolding username valid_username
username-ne [] = refl
username-ne (b ∷ s) = ground arith

username_bytes-ascii : (s : Text) → username_bytes s ≡ true → ascii s ≡ true
unfolding username_bytes username_byte ascii
username_bytes-ascii [] h = refl
username_bytes-ascii (b ∷ s) h = ground (arith, username_bytes-ascii s)

-- A sanitised name is ASCII.
pub username-ascii : (s : Text) → ascii (username s) ≡ true
unfolding valid_username ascii
username-ascii s = elim (username-cases s) [
  | inl (v, e) ↦ rw e (username_bytes-ascii s (ground arith))
  | inr e ↦ rw e refl
]
