-- ===== src/Access/Postures.antt =====
-- internal/access/posture.go: which sign-in methods may be used, and so whether the gate enforces.
--
-- A note is its kind, without the prose; each kind is one sentence, so notes are compared by kind.
-- The warnings for the log are left out. `now.Sub(at) < PostureTTL` is written `now < at + ttl`.

pub mod Live
pub mod Opened
mod Tests
use labview.Common.{
  ℕ, ◌+◌, ◌*◌, Bool, true, false, ◌&&◌, ◌||◌, not, List, [], ◌∷◌, ◌++◌, Option, none, some, ltb,
  ◌==◌, if◌then◌else◌, length,
}
use labview.Common.Text.{Text, codes, is_empty, trim_space}
use labview.Access.Session.{LoginMethod, passwd, oidc, second}
use labview.Access.Gate.{Posture}
use labview.Access.Gate.Login.{same_method}
use labview.Access.Passwd.{PasswdFile, PasswdReader, Files, usable, empty_file, read}

pub record OidcConfig : Type 0 where
  pub enabled : Bool
  pub issuer : Text
  pub client_id : Text
  pub label : Text

pub record PasswdConfig : Type 0 where
  pub enabled : Bool
  pub file : Text

pub record AuthConfig : Type 0 where
  pub passwd : PasswdConfig
  pub oidc : OidcConfig

abbrev pub posture_ttl : ℕ
posture_ttl = 5 * second

pub data Note : Type 0 where
  no_file unreadable no_accounts oidc_unconfigured nothing_available : Note
  skipped : ℕ → Note

pub record Resolved : Type 0 where
  pub posture : Posture
  pub notes : List Note
  pub oidc_label : Text

abbrev pub default_oidc_label : Text
default_oidc_label = codes "Sign in with your provider"

unfoldable pub label : Text → Text
label s = if is_empty (trim_space s) then default_oidc_label else s

-- `missingOIDC(…)` is not empty
unfoldable pub missing_oidc : OidcConfig → Bool
missing_oidc o = is_empty (trim_space o.issuer) || is_empty (trim_space o.client_id)

abbrev skipped_note : ℕ → List Note
skipped_note n = if ltb 0 n then skipped n ∷ [] else []

abbrev unread_note : PasswdFile → List Note
unread_note file = elim file.err [ none ↦ no_accounts ∷ [] | some e ↦ unreadable ∷ [] ]

-- whether the `switch` for the passwd file reaches its default
unfoldable pub passwd_live : PasswdConfig → PasswdFile → Bool
passwd_live cfg file =
    if not cfg.enabled
    then false
    else if is_empty (trim_space cfg.file)
    then false
    else elim file.err [ some e ↦ false | none ↦ usable file ]

unfoldable pub passwd_notes : PasswdConfig → PasswdFile → List Note
passwd_notes cfg file =
    if not cfg.enabled
    then []
    else if is_empty (trim_space cfg.file)
    then no_file ∷ []
    else if passwd_live cfg file
    then skipped_note (length file.warnings)
    else unread_note file

unfoldable pub oidc_live : OidcConfig → Bool
oidc_live cfg = cfg.enabled && not (missing_oidc cfg)

unfoldable pub oidc_notes : OidcConfig → List Note
oidc_notes cfg = if cfg.enabled && missing_oidc cfg then oidc_unconfigured ∷ [] else []

-- `<` on the names of the methods that a posture may hold, "passwd" and "oidc"
abbrev pub method_lt : LoginMethod → LoginMethod → Bool
method_lt oidc passwd = true
method_lt _ _ = false

-- `sort.Slice`, as an insertion
unfoldable pub insert_method : LoginMethod → List LoginMethod → List LoginMethod
insert_method m [] = m ∷ []
insert_method m (k ∷ ms) = if method_lt k m then k ∷ insert_method m ms else m ∷ k ∷ ms

unfoldable pub sort_methods : List LoginMethod → List LoginMethod
sort_methods [] = []
sort_methods (m ∷ ms) = insert_method m (sort_methods ms)

abbrev no_methods : List LoginMethod → Bool
no_methods [] = true
no_methods (m ∷ ms) = false

-- `Resolve`
unfoldable pub resolve_posture : AuthConfig → PasswdFile → Resolved
resolve_posture cfg file =
    let by_file = passwd_live cfg.passwd file in
    let by_provider = oidc_live cfg.oidc in
    let methods =
      sort_methods
        ((if by_file then passwd ∷ [] else []) ++ (if by_provider then oidc ∷ [] else [])) in
    let enforced = not (no_methods methods) in
    record {
      posture = record {
        enforced = enforced;
        methods = methods;
        passwd = if by_file then file.entries else [];
      };
      notes =
          passwd_notes cfg.passwd file
          ++ (oidc_notes cfg.oidc
              ++ (if not enforced && (cfg.passwd.enabled || cfg.oidc.enabled)
                  then nothing_available ∷ []
                  else []));
      oidc_label = label cfg.oidc.label;
    }

-- `Postures.read`
unfoldable pub read_configured : Files → PasswdReader → PasswdConfig → PasswdReader × PasswdFile
read_configured files r cfg = if not cfg.enabled then (r, empty_file) else read files r cfg.file

pub record Postures : Type 0 where
  pub held : Resolved
  pub at : ℕ
  pub loaded : Bool
  pub previous : Option Resolved
  pub reader : PasswdReader

abbrev same_note : Note → Note → Bool
same_note no_file no_file = true
same_note unreadable unreadable = true
same_note no_accounts no_accounts = true
same_note oidc_unconfigured oidc_unconfigured = true
same_note nothing_available nothing_available = true
same_note (skipped n) (skipped k) = n == k
same_note _ _ = false

abbrev same_notes : List Note → List Note → Bool
same_notes [] [] = true
same_notes (a ∷ as') (b ∷ bs) = same_note a b && same_notes as' bs
same_notes _ _ = false

abbrev same_methods : List LoginMethod → List LoginMethod → Bool
same_methods [] [] = true
same_methods (a ∷ ms) (b ∷ ns) = same_method a b && same_methods ms ns
same_methods _ _ = false

-- whether `postureKey` gives one text for both
unfoldable pub same_key : Resolved → Resolved → Bool
same_key a b = same_methods a.posture.methods b.posture.methods && same_notes a.notes b.notes

-- nothing is the empty key, which no posture has
abbrev differs : Resolved → Option Resolved → Bool
differs next none = true
differs next (some old) = not (same_key next old)

-- `Current`, for one request at a time: the next state, the posture, and whether `Changed` is called
unfoldable pub current : Files → AuthConfig → Postures → ℕ → Postures × Resolved × Bool
current files cfg p now =
    if p.loaded && ltb now (p.at + posture_ttl)
    then (p, p.held, false)
    else let found : PasswdReader × PasswdFile = read_configured files p.reader cfg.passwd in
      let next = resolve_posture cfg found.1 in
      (
        record { held = next; at = now; loaded = true; previous = some next; reader = found.0 },
        next,
        differs next p.previous,
      )
