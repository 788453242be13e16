-- ===== src/Access/Gate/Guarded.antt =====
-- What the gate lets through (gate.go, `Guard`).
use labview.Common.{
  ℕ, ◌≡◌, ◌≢◌, ◌⊎◌, ◌↔◌, inl, inr, refl, true, false, Option, none, some, arith, Option-cases, sym,
}
use labview.Common.Text.{Text, codes, text_eq_iff}
use labview.Access.Session.{Claims, Verified, SessionRejection, accepted, rejected, verify}
use labview.Access.Session.Tokens.{IsGenuine, verify_accepts_iff}
use labview.Access.Username.{username}
use labview.Access.Cookies.{Request, session_token}
use labview.Access.Gate.{
  Library, Gate, Posture, Viewer, served, resolve, guard, guard_viewer, normalise, api_path,
  public_path, check_origin, user_of,
}

Verified-cases :
    (v : Verified)
    → ((kind : SessionRejection) × (c : Option Claims) × (v ≡ rejected kind c))
      ⊎ ((c : Claims) × (v ≡ accepted c))
Verified-cases (rejected kind c) = inl (kind, c, refl)
Verified-cases (accepted c) = inr (c, refl)

module _ (lib : Library) where
  -- What lies behind an answer that serves the data of the API while the gate enforces: the cookie
  -- holds a token that the signer finds genuine, and the viewer is the one that its claims name.
  pub record IsLet (g : Gate) (r : Request) (now : ℕ) (v : Viewer) : Type 0 where
    pub token : Text
    pub claims : Claims
    pub carried : session_token g.cookies r ≡ some token
    pub genuine : IsGenuine lib.codec g.signer token now claims
    pub named : v.user ≡ some (user_of claims)
    pub logged : v.name ≡ username claims.u
    pub unrefused : v.kind ≡ none
    pub same_origin : (r.method ≢ codes "POST") ⊎ (check_origin lib.parse r ≡ true)

  guard-IsLet :
      (g : Gate) (posture : Posture) (r : Request) (now : ℕ) (v : Viewer) (path : Text)
      → posture.enforced ≡ true
      → normalise lib.unescape r.path ≡ some path
      → api_path path ≡ true
      → public_path path ≡ false
      → guard lib g posture r now ≡ served v
      → IsLet g r now v
  unfolding guard guard_viewer resolve
  guard-IsLet g posture r now v path on n api closed h =
      elim (Option-cases (session_token g.cookies r)) [
        | inl e ↦ absurd (ground arith)
        | inr (token, e) ↦ elim (Verified-cases (verify lib.codec g.signer token now)) [
          | inl (kind, c, f) ↦
              absurd (elim (Option-cases c) [ inl k ↦ ground arith | inr (d, k) ↦ ground arith ])
          | inr (c, f) ↦ record {
            token = token;
            claims = c;
            carried = e;
            genuine = (verify_accepts_iff lib.codec g.signer token now c).0 f;
            named = ground arith;
            logged = ground arith;
            unrefused = ground arith;
            same_origin = ground (arith, text_eq_iff r.method (codes "POST"));
          }
        ]
      ]

  -- A genuine token makes the viewer that its claims name.
  resolve-IsLet :
      (g : Gate) (r : Request) (now : ℕ) (v : Viewer) → IsLet g r now v → resolve lib g r now ≡ v
  unfolding resolve
  resolve-IsLet g r now v h =
      let f = (verify_accepts_iff lib.codec g.signer h.token now h.claims).1 h.genuine in
      rw (resolve, h.carried, f)
        (λ i. record { user = sym h.named i; name = sym h.logged i; kind = sym h.unrefused i })

  IsLet-guard :
      (g : Gate) (posture : Posture) (r : Request) (now : ℕ) (v : Viewer) (path : Text)
      → posture.enforced ≡ true
      → normalise lib.unescape r.path ≡ some path
      → api_path path ≡ true
      → public_path path ≡ false
      → IsLet g r now v
      → guard lib g posture r now ≡ served v
  unfolding guard guard_viewer
  IsLet-guard g posture r now v path on n api closed h = elim h.same_origin [
    | inl get ↦
        ground (arith, text_eq_iff r.method (codes "POST"), resolve-IsLet g r now v h, h.named)
    | inr same ↦ ground (arith, resolve-IsLet g r now v h, h.named)
  ]

  -- While the gate enforces, a request for a path of the API that is not public is served to a
  -- viewer exactly if its cookie holds a genuine token of that user, and, for a POST, the origin
  -- check allows it.
  pub guard_protects_iff :
      (g : Gate) (posture : Posture) (r : Request) (now : ℕ) (v : Viewer) (path : Text)
      → posture.enforced ≡ true
      → normalise lib.unescape r.path ≡ some path
      → api_path path ≡ true
      → public_path path ≡ false
      → (guard lib g posture r now ≡ served v) ↔ IsLet g r now v
  guard_protects_iff g posture r now v path on n api closed = (
    guard-IsLet g posture r now v path on n api closed,
    IsLet-guard g posture r now v path on n api closed,
  )
