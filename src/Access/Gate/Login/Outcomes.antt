-- ===== src/Access/Gate/Login/Outcomes.antt =====
-- When an attempt signs in, when it is locked out, and how a session ends (login.go).
use labview.Common.{
  ℕ, ◌+◌, ◌*◌, ◌<◌, ◌≤◌, ◌≡◌, ◌↔◌, refl, sym, ap, ◌∙◌, Bool, true, false, Option, some, arith,
  Option-cases, Bool-cases, length, inl, inr,
}
use labview.Common.Text.{Text, ascii, is_empty}
use labview.Access.Throttle.{Throttle, allow, failed}
use labview.Access.Throttle.Lock.{failed-allow}
use labview.Access.Revocations
use labview.Access.Revocations.{max_revocations}
use labview.Access.Revocations.Held.{IsHeld}
use labview.Access.Session.{
  Codec, Claims, fits, passwd, accepted, rejected, revoked, mint, verify, expiry, unix, second,
  max_token_bytes,
}
use labview.Access.Session.Tokens.{verify-mint, verify-revoke}
use labview.Access.Cookies.{Request, session_token}
use labview.Access.Gate.{Gate, Posture, too_many}
use labview.Access.Gate.Login.{
  Door, throttled, attempt, judge, live, verify_password, throttle_of, refusal, signed_in, logout,
  wrong_password, with_throttle,
}

module _ (codec : Codec) (compare : Text → Text → Bool) where
  -- What an attempt that signs in has passed.
  pub record IsSignedIn (d : Door) (posture : Posture) (user password : Text) (jti : Option Text)
      (now : ℕ) (token : Text) (c : Claims) : Type 0 where
    pub offered : live passwd posture.methods ≡ true
    pub unlocked : (allow (throttle_of d) user now).locked ≡ false
    pub verified : verify_password compare posture.passwd user password ≡ true
    pub minted : mint codec d.signer jti user passwd now ≡ some (token, c)

  attempt-IsSignedIn :
      (d : Door) (posture : Posture) (user password : Text) (jti : Option Text) (now : ℕ)
      (token : Text) (c : Claims)
      → (attempt codec compare d posture user password jti now).1 ≡ signed_in token c
      → IsSignedIn d posture user password jti now token c
  unfolding attempt judge wrong_password
  attempt-IsSignedIn d posture user password jti now token c h =
      elim (Option-cases (mint codec d.signer jti user passwd now)) [
        | inl e ↦ absurd (ground arith)
        | inr ((t, k), e) ↦ record {
          offered = ground arith;
          unlocked = ground arith;
          verified = ground arith;
          minted = ground arith;
        }
      ]

  IsSignedIn-attempt :
      (d : Door) (posture : Posture) (user password : Text) (jti : Option Text) (now : ℕ)
      (token : Text) (c : Claims)
      → IsSignedIn d posture user password jti now token c
      → (attempt codec compare d posture user password jti now).1 ≡ signed_in token c
  unfolding attempt judge
  IsSignedIn-attempt d posture user password jti now token c h = ground arith

  -- An attempt signs in with a token exactly if password sign-in is live, the name is not locked,
  -- the password verifies against the posture's table, and the signer minted that token.
  pub attempt_signs_in_iff :
      (d : Door) (posture : Posture) (user password : Text) (jti : Option Text) (now : ℕ)
      (token : Text) (c : Claims)
      → ((attempt codec compare d posture user password jti now).1 ≡ signed_in token c)
        ↔ IsSignedIn d posture user password jti now token c
  attempt_signs_in_iff d posture user password jti now token c = (
    attempt-IsSignedIn d posture user password jti now token c,
    IsSignedIn-attempt d posture user password jti now token c,
  )

  -- What an attempt with a wrong password leaves and answers.
  attempt-wrong :
      (d : Door) (posture : Posture) (user password : Text) (jti : Option Text) (now : ℕ)
      → live passwd posture.methods ≡ true
      → (allow (throttle_of d) user now).locked ≡ false
      → verify_password compare posture.passwd user password ≡ false
      → attempt codec compare d posture user password jti now ≡ wrong_password d user now
  unfolding attempt judge
  attempt-wrong d posture user password jti now on unlocked wrong = ground arith

  throttle_of-some : (d : Door) (t : Throttle) → d.throttle ≡ some t → throttle_of d ≡ t
  unfolding throttle_of
  throttle_of-some d t h = rw h refl

  attempt_locked :
      (d : Door) (posture : Posture) (user password : Text) (jti : Option Text) (now : ℕ)
      → live passwd posture.methods ≡ true
      → (allow (throttle_of d) user now).locked ≡ true
      → attempt codec compare d posture user password jti now
        ≡ (d, refusal user too_many throttled (allow (throttle_of d) user now).retry_after)
  unfolding attempt
  attempt_locked d posture user password jti now on locked = ground arith

  wrong_password-locked :
      (d : Door) (user : Text) (now : ℕ)
      → (wrong_password d user now).1.status ≡ too_many
      → ((failed (throttle_of d) user now).1.locked ≡ true)
        × (wrong_password d user now ≡ (
          (wrong_password d user now).0,
          refusal user too_many throttled (failed (throttle_of d) user now).1.retry_after,
        ))
  unfolding wrong_password
  wrong_password-locked d user now h =
      elim (Bool-cases (failed (throttle_of d) user now).1.locked) [
        | inl e ↦ (e, rw e refl)
        | inr e ↦ absurd (ground arith)
      ]

  throttle_of-with_throttle :
      (d : Door) (t u : Throttle) → d.throttle ≡ some t → throttle_of (with_throttle d u) ≡ u
  unfolding throttle_of with_throttle
  throttle_of-with_throttle d t u h = ground arith

  wrong_password-throttle :
      (d : Door) (t : Throttle) (user : Text) (now : ℕ)
      → d.throttle ≡ some t
      → throttle_of (wrong_password d user now).0 ≡ (failed t user now).0
  unfolding wrong_password
  wrong_password-throttle d t user now has =
      throttle_of-with_throttle d t (failed (throttle_of d) user now).0 has
      ∙ ap (λ u. (failed u user now).0) (throttle_of-some d t has)

  -- Where there is a throttle with a window, and password sign-in is live: once a wrong password of
  -- a name that was not locked is answered as throttled, every attempt on that name at that instant
  -- is refused with the same wait, whatever its password, and changes nothing.
  pub attempt_locks :
      (d : Door) (t : Throttle) (posture : Posture) (user wrong password : Text)
      (jti other : Option Text) (now : ℕ)
      → d.throttle ≡ some t
      → 0 < t.window
      → live passwd posture.methods ≡ true
      → (allow t user now).locked ≡ false
      → verify_password compare posture.passwd user wrong ≡ false
      → (attempt codec compare d posture user wrong jti now).1.status ≡ too_many
      → attempt codec compare
          (attempt codec compare d posture user wrong jti now).0
          posture
          user
          password
          other
          now
        ≡ attempt codec compare d posture user wrong jti now
  attempt_locks d t posture user wrong password jti other now has window on unlocked bad many =
      let is_t = throttle_of-some d t has in
      let first = attempt-wrong d posture user wrong jti now on (rw is_t unlocked) bad in
      let locked = wrong_password-locked d user now (rw (← first) many) in
      let door : throttle_of (wrong_password d user now).0 ≡ (failed t user now).0 =
        wrong_password-throttle d t user now has in
      let again : allow (throttle_of (wrong_password d user now).0) user now
          ≡ (failed t user now).1 =
        rw door (failed-allow t user now window) in
      let shut = rw is_t at locked.0 in
      rw first (
        attempt_locked (wrong_password d user now).0 posture user password other now on
          (rw again shut)
        ∙ ap (λ v. ((wrong_password d user now).0, refusal user too_many throttled v.retry_after))
            (again ∙ ap (λ u. (failed u user now).1) (sym is_t))
        ∙ sym locked.1)

  -- A session that an attempt opened is accepted by the same signer until it expires. Its times
  -- fit an `int64`, the random identifier is ASCII, not empty and not signed out, and the token is within the length that is parsed.
  pub attempt-verify :
      (d : Door) (posture : Posture) (user password jti : Text) (now later : ℕ) (token : Text)
      (c : Claims)
      → (attempt codec compare d posture user password (some jti) now).1 ≡ signed_in token c
      → fits c ≡ true
      → is_empty jti ≡ false
      → ascii jti ≡ true
      → length token ≤ max_token_bytes
      → later < unix (now + d.signer.ttl) * second
      → Revocations.has jti d.signer.held ≡ false
      → verify codec
          (attempt codec compare d posture user password (some jti) now).0.signer
          token
          later
        ≡ accepted c
  unfolding attempt judge with_throttle
  attempt-verify d posture user password jti now later token c h within named plain short early
        kept =
      let i = attempt-IsSignedIn d posture user password (some jti) now token c h in
      let v =
        verify-mint codec d.signer jti user passwd now later token c i.minted refl within named
          plain short early kept in
      ground (arith, i.offered, i.unlocked, i.verified, i.minted)

-- After a logout the session that the request carried is refused as signed out until it expires.
-- It was accepted at the logout, and the set of signed-out sessions has room.
pub logout-verify :
    (codec : Codec) (g : Gate) (r : Request) (now later : ℕ) (token : Text) (c : Claims)
    → session_token g.cookies r ≡ some token
    → verify codec g.signer token now ≡ accepted c
    → IsHeld max_revocations g.signer.held
    → length g.signer.held < max_revocations
    → later < expiry c
    → verify codec (logout codec g r now).0 token later ≡ rejected revoked (some c)
unfolding logout
logout-verify codec g r now later token c carried v held room early =
    let e = verify-revoke codec g.signer token now now later c v held room early in ground arith
