-- ===== src/Access/Postures/Live.antt =====
-- When a method is offered, and when the gate enforces (posture.go, `Resolve`).
use labview.Common.{
  ◌≡◌, ◌↔◌, ◌⊎◌, refl, Bool, true, false, [], ◌∷◌, ◌++◌, none, arith, Bool-cases, Option-cases, inl,
  inr, if◌then◌else◌,
}
use labview.Common.Text.{is_empty, trim_space}
use labview.Access.Session.{passwd, oidc}
use labview.Access.Gate.Login.{live}
use labview.Access.Passwd.{PasswdFile, usable}
use labview.Access.Postures.{
  AuthConfig, PasswdConfig, passwd_live, oidc_live, missing_oidc, sort_methods, insert_method,
  resolve_posture,
}

-- Both methods: sorted by name, the provider stands before the passwd file.
pub resolve_posture-methods :
    (cfg : AuthConfig) (file : PasswdFile)
    → (resolve_posture cfg file).posture.methods
      ≡ (if oidc_live cfg.oidc then oidc ∷ [] else [])
        ++ (if passwd_live cfg.passwd file then passwd ∷ [] else [])
unfolding resolve_posture sort_methods insert_method
resolve_posture-methods cfg file = elim (Bool-cases (passwd_live cfg.passwd file)) [
  | inl p ↦ elim (Bool-cases (oidc_live cfg.oidc)) [
    | inl o ↦ rw (p, o) refl
    | inr o ↦ rw (p, o) refl
  ]
  | inr p ↦ elim (Bool-cases (oidc_live cfg.oidc)) [
    | inl o ↦ rw (p, o) refl
    | inr o ↦ rw (p, o) refl
  ]
]

live-methods :
    (p o : Bool)
    → (live passwd ((if o then oidc ∷ [] else []) ++ (if p then passwd ∷ [] else [])) ≡ p)
      × (live oidc ((if o then oidc ∷ [] else []) ++ (if p then passwd ∷ [] else [])) ≡ o)
unfolding live
live-methods true true = (refl, refl)
live-methods true false = (refl, refl)
live-methods false true = (refl, refl)
live-methods false false = (refl, refl)

passwd_live_iff :
    (cfg : PasswdConfig) (file : PasswdFile)
    → (passwd_live cfg file ≡ true) ↔ (
        (cfg.enabled ≡ true)
        × (is_empty (trim_space cfg.file) ≡ false)
        × (file.err ≡ none)
        × (usable file ≡ true))
unfolding passwd_live
passwd_live_iff cfg file = elim (Option-cases file.err) [
  | inl e ↦ ground arith
  | inr (x, e) ↦ ground arith
]

enforced_iff :
    (cfg : AuthConfig) (file : PasswdFile)
    → ((resolve_posture cfg file).posture.enforced ≡ true)
      ↔ ((passwd_live cfg.passwd file ≡ true) ⊎ (oidc_live cfg.oidc ≡ true))
unfolding resolve_posture sort_methods insert_method
enforced_iff cfg file = elim (Bool-cases (passwd_live cfg.passwd file)) [
  | inl p ↦ elim (Bool-cases (oidc_live cfg.oidc)) [
    | inl o ↦ rw (p, o) (ground arith)
    | inr o ↦ rw (p, o) (ground arith)
  ]
  | inr p ↦ elim (Bool-cases (oidc_live cfg.oidc)) [
    | inl o ↦ rw (p, o) (ground arith)
    | inr o ↦ rw (p, o) (ground arith)
  ]
]

-- What the gate asks of a posture.
pub record IsResolved (cfg : AuthConfig) (file : PasswdFile) : Type 0 where
  pub passwd_offered : (live passwd (resolve_posture cfg file).posture.methods ≡ true) ↔ (
      (cfg.passwd.enabled ≡ true)
      × (is_empty (trim_space cfg.passwd.file) ≡ false)
      × (file.err ≡ none)
      × (usable file ≡ true))
  pub oidc_offered : (live oidc (resolve_posture cfg file).posture.methods ≡ true) ↔ (
      (cfg.oidc.enabled ≡ true)
      × (is_empty (trim_space cfg.oidc.issuer) ≡ false)
      × (is_empty (trim_space cfg.oidc.client_id) ≡ false))
  pub enforcing : ((resolve_posture cfg file).posture.enforced ≡ true) ↔ (
      (live passwd (resolve_posture cfg file).posture.methods ≡ true)
      ⊎ (live oidc (resolve_posture cfg file).posture.methods ≡ true))

-- Passwords are offered exactly if they are enabled, a file is named and was read without an error,
-- and it holds an account; a provider exactly if it is enabled and has an issuer and a client; and
-- the gate enforces exactly if one of the two is offered.
pub resolve_posture-IsResolved : (cfg : AuthConfig) (file : PasswdFile) → IsResolved cfg file
resolve_posture-IsResolved cfg file =
    let m = resolve_posture-methods cfg file in
    let l = live-methods (passwd_live cfg.passwd file) (oidc_live cfg.oidc) in
    record {
      passwd_offered = rw (m, l.0) (passwd_live_iff cfg.passwd file);
      oidc_offered = rw (m, l.1) (unfold oidc_live missing_oidc in ground arith);
      enforcing = rw (m, l.0, l.1) (enforced_iff cfg file);
    }
