-- ===== src/Access/Session/Tokens.antt =====
-- What a session token proves (session.go, `Mint`, `Verify`, `cut` and `Revoke`).
use labview.Common.{
  ℕ, ◌+◌, ◌*◌, ◌≤◌, ◌<◌, ◌≡◌, ◌≢◌, ◌↔◌, refl, ap, ◌∙◌, true, false, inl, inr, Option-cases, ◌∷◌,
  ◌++◌, Option, none, some, arith, length,
}
use labview.Common.Text.{
  Text, ascii, text_eq_iff, is_empty, has_byte, cut_byte, cut_byte_sound, cut_byte_complete,
  text_eq_refl,
}
use labview.Common.Map.{Map}
use labview.Access.Username.{username-ne, username-ascii}
use labview.Access.Revocations
use labview.Access.Revocations.{max_revocations}
use labview.Access.Revocations.Held.{IsHeld, lookup-add}
use labview.Access.Session.{
  Codec, Signer, Claims, LoginMethod, is_known, fits, is_zero, rejected, accepted, signature,
  revoked, max_token_bytes, token_version, second, unix, expiry, cut, new_claims, mint, verify,
  verify_parts, verify_claims, read_claims, revoke,
}

abbrev pub joined : Text → Text → Text → Text
joined version body mac = version ++ b'.' ∷ (body ++ b'.' ∷ mac)

-- The parts of a token, none with a dot, the last two not empty.
pub record IsCut (token version body mac : Text) : Type 0 where
  pub whole : token ≡ joined version body mac
  pub version_plain : has_byte b'.' version ≡ false
  pub body_plain : has_byte b'.' body ≡ false
  pub mac_plain : has_byte b'.' mac ≡ false
  pub body_ne : is_empty body ≡ false
  pub mac_ne : is_empty mac ≡ false

cut_sound :
    (token version body mac : Text)
    → cut token ≡ some (version, body, mac)
    → IsCut token version body mac
unfolding cut
cut_sound token version body mac h = elim (Option-cases (cut_byte b'.' token)) [
  | inl e ↦ absurd (ground arith)
  | inr ((v, rest), e) ↦ elim (Option-cases (cut_byte b'.' rest)) [
    | inl f ↦ absurd (ground arith)
    | inr ((b, m), f) ↦
        ground (arith, cut_byte_sound b'.' token v rest e, cut_byte_sound b'.' rest b m f)
  ]
]

cut_complete :
    (token version body mac : Text)
    → IsCut token version body mac
    → cut token ≡ some (version, body, mac)
unfolding cut
cut_complete token version body mac c = ground (
  arith,
  cut_byte_complete b'.' version (body ++ b'.' ∷ mac) c.version_plain,
  cut_byte_complete b'.' body mac c.body_plain,
)

-- Splitting a token finds three parts exactly where the token is made of them.
pub cut_iff :
    (token version body mac : Text)
    → (cut token ≡ some (version, body, mac)) ↔ IsCut token version body mac
cut_iff token version body mac =
    (cut_sound token version body mac, cut_complete token version body mac)

has-add :
    (jti : Text) (exp now : ℕ) (held : Map ℕ)
    → is_empty jti ≡ false
    → IsHeld max_revocations held
    → length held < max_revocations
    → Revocations.has jti (Revocations.add max_revocations jti exp now held) ≡ true
unfolding Revocations.has
has-add jti exp now held named h room =
    ground (arith, lookup-add max_revocations jti exp now held named h jti room, text_eq_refl jti)

plain : has_byte b'.' token_version ≡ false
unfolding has_byte
plain = refl

module _ (codec : Codec) where
  open codec use {hmac, sha256, enc, dec, marshal, unmarshal}

  -- What `Verify` asks of a token, apart from the order in which it asks.
  pub record IsGenuine (s : Signer) (token : Text) (now : ℕ) (c : Claims) : Type 0 where
    pub body : Text
    pub mac : Text
    pub given : Text
    pub raw : Text
    pub short : length token ≤ max_token_bytes
    pub parts : IsCut token token_version body mac
    pub mac_read : dec mac ≡ some given
    pub signed : sha256 given ≡ sha256 (hmac s.secret body)
    pub body_read : dec body ≡ some raw
    pub claims_read : unmarshal raw ≡ some c
    pub user_ne : is_empty c.u ≡ false
    pub jti_ne : is_empty c.jti ≡ false
    pub exp_ne : is_zero c.exp ≡ false
    pub fresh : now < expiry c
    pub kept : Revocations.has c.jti s.held ≡ false

  genuine-accepted :
      (s : Signer) (token : Text) (now : ℕ) (c : Claims)
      → IsGenuine s token now c
      → verify codec s token now ≡ accepted c
  unfolding verify verify_claims
  genuine-accepted s token now c g = ground (
    arith,
    cut_complete token token_version g.body g.mac g.parts,
    text_eq_iff token_version token_version,
    text_eq_iff (sha256 g.given) (sha256 (hmac s.secret g.body)),
  )

  -- From here the parts of an accepted token are named one by one.
  accepted_claims :
      (s : Signer) (o : Option Claims) (now : ℕ) (c : Claims)
      → verify_claims codec s o now ≡ accepted c
      → (o ≡ some c)
        × (is_empty c.u ≡ false)
        × (is_empty c.jti ≡ false)
        × (is_zero c.exp ≡ false)
        × (now < expiry c)
        × (Revocations.has c.jti s.held ≡ false)
  unfolding verify_claims
  accepted_claims s none now c h = absurd (ground arith)
  accepted_claims s (some d) now c h =
      (ground arith, ground arith, ground arith, ground arith, ground arith, ground arith)

  accepted_body :
      (body : Text) (c : Claims)
      → read_claims codec body ≡ some c
      → (raw : Text) × (dec body ≡ some raw) × (unmarshal raw ≡ some c)
  unfolding read_claims
  accepted_body body c h = elim (Option-cases (dec body)) [
    | inl e ↦ absurd (ground arith)
    | inr (raw, e) ↦ (raw, e, ground arith)
  ]

  accepted_parts :
      (s : Signer) (version body mac : Text) (now : ℕ) (c : Claims)
      → verify_parts codec s version body mac now ≡ accepted c
      → (given : Text) × (version ≡ token_version)
        × (dec mac ≡ some given)
        × (sha256 given ≡ sha256 (hmac s.secret body))
        × (verify_claims codec s (read_claims codec body) now ≡ accepted c)
  unfolding verify_parts
  accepted_parts s version body mac now c h = elim (Option-cases (dec mac)) [
    | inl e ↦ absurd (ground arith)
    | inr (given, e) ↦ (
      given,
      ground (arith, text_eq_iff version token_version),
      e,
      ground (arith, text_eq_iff (sha256 given) (sha256 (hmac s.secret body))),
      ground arith,
    )
  ]

  accepted-IsGenuine :
      (s : Signer) (token : Text) (now : ℕ) (c : Claims)
      → verify codec s token now ≡ accepted c
      → IsGenuine s token now c
  unfolding verify
  accepted-IsGenuine s token now c h = elim (Option-cases (cut token)) [
    | inl e ↦ absurd (ground arith)
    | inr ((version, body, mac), e) ↦
        let (given, v, mac_read, signed, claims) =
          accepted_parts s version body mac now c (ground arith) in
        let (o, u, j, x, f, k) = accepted_claims s (read_claims codec body) now c claims in
        let (raw, body_read, claims_read) = accepted_body body c o in
        record {
          body = body;
          mac = mac;
          given = given;
          raw = raw;
          short = ground arith;
          parts = rw v at (cut_sound token version body mac e);
          mac_read = mac_read;
          signed = signed;
          body_read = body_read;
          claims_read = claims_read;
          user_ne = u;
          jti_ne = j;
          exp_ne = x;
          fresh = f;
          kept = k;
        }
  ]

  -- A token is accepted with some claims exactly if it is short enough, is of this version and has
  -- three parts, its MAC is the signer's by the hashes of both, its payload decodes to the claims,
  -- which name a user, an identifier and an expiry, and it is neither expired nor signed out.
  pub verify_accepts_iff :
      (s : Signer) (token : Text) (now : ℕ) (c : Claims)
      → (verify codec s token now ≡ accepted c) ↔ IsGenuine s token now c
  verify_accepts_iff s token now c =
      (accepted-IsGenuine s token now c, genuine-accepted s token now c)

  -- A token of the right shape whose MAC is not the signer's is refused for its signature alone,
  -- whatever its payload says, expired or signed out included.
  pub verify_forged :
      (s : Signer) (token body mac given : Text) (now : ℕ)
      → length token ≤ max_token_bytes
      → IsCut token token_version body mac
      → dec mac ≡ some given
      → sha256 given ≢ sha256 (hmac s.secret body)
      → verify codec s token now ≡ rejected signature none
  unfolding verify
  verify_forged s token body mac given now short parts mac_read forged = ground (
    arith,
    cut_complete token token_version body mac parts,
    text_eq_iff token_version token_version,
    text_eq_iff (sha256 given) (sha256 (hmac s.secret body)),
  )

  -- A token that a signer minted is accepted by it, with the claims that it was minted with, until
  -- the second in which the session expires begins. The method is a known one, the times fit an
  -- `int64`, the identifier is ASCII, not empty and not signed
  -- out, and the token is within the length that will be parsed.
  pub verify-mint :
      (s : Signer) (jti user : Text) (via : LoginMethod) (now later : ℕ) (token : Text) (c : Claims)
      → mint codec s (some jti) user via now ≡ some (token, c)
      → is_known via ≡ true
      → fits c ≡ true
      → is_empty jti ≡ false
      → ascii jti ≡ true
      → length token ≤ max_token_bytes
      → later < unix (now + s.ttl) * second
      → Revocations.has jti s.held ≡ false
      → verify codec s token later ≡ accepted c
  unfolding mint
  verify-mint s jti user via now later token c minted known within named plain_id short early kept =
      let claims = new_claims codec s jti user via now in
      let body = enc (marshal claims) in
      let mac = enc (hmac s.secret body) in
      let same : claims ≡ c = ground arith in
      let whole : token ≡ joined token_version body mac = ground arith in
      rw (← same) (
        genuine-accepted s token later claims (record {
          body = body;
          mac = mac;
          given = hmac s.secret body;
          raw = marshal claims;
          short = short;
          parts = record {
            whole = whole;
            version_plain = plain;
            body_plain = codec.has_byte-enc _;
            mac_plain = codec.has_byte-enc _;
            body_ne = codec.enc-ne _ (codec.marshal-ne claims);
            mac_ne = codec.enc-ne _ (codec.hmac-ne s.secret body);
          };
          mac_read = codec.dec-enc _;
          signed = refl;
          body_read = codec.dec-enc _;
          claims_read =
              codec.unmarshal-marshal claims known (ap fits same ∙ within) (username-ascii user)
                plain_id;
          user_ne = username-ne user;
          jti_ne = named;
          exp_ne = ground (arith, early);
          fresh = early;
          kept = kept;
        }))

  -- A session that was accepted is refused as signed out from the moment it is revoked until it
  -- expires, while the set has room.
  pub verify-revoke :
      (s : Signer) (token : Text) (before at later : ℕ) (c : Claims)
      → verify codec s token before ≡ accepted c
      → IsHeld max_revocations s.held
      → length s.held < max_revocations
      → later < expiry c
      → verify codec (revoke s c at) token later ≡ rejected revoked (some c)
  unfolding verify verify_claims revoke
  verify-revoke s token before at later c was held room early =
      let g = accepted-IsGenuine s token before c was in
      ground (
        arith,
        cut_complete token token_version g.body g.mac g.parts,
        text_eq_iff token_version token_version,
        text_eq_iff (sha256 g.given) (sha256 (hmac s.secret g.body)),
        has-add c.jti (expiry c) at s.held g.jti_ne held room,
        g.short,
        g.mac_read,
        g.signed,
        g.body_read,
        g.claims_read,
        g.user_ne,
        g.jti_ne,
        g.exp_ne,
      )
