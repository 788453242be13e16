-- ===== src/Access/Postures/Opened.antt =====
-- What a passwd file that cannot be read does to the gate (posture.go and passwd.go).
use labview.Common.{◌≡◌, ◌≤◌, ◌+◌, ◌&&◌, ltb, refl, true, false, ℕ, some, arith}
use labview.Common.Text.{Text, is_empty, trim_space}
use labview.Access.Cookies.{Request}
use labview.Access.Gate.{Library, Gate, served, guard, resolve, normalise}
use labview.Access.Passwd.{PasswdReader, PasswdError, PasswdFile, Files, failed, read, fail_with}
use labview.Access.Postures.{
  Postures, current, posture_ttl, AuthConfig, passwd_live, oidc_live, read_configured,
  resolve_posture, sort_methods, insert_method,
}

-- The reader keeps the accounts that it read before, and reports the error beside them.
read-failed :
    (files : Files) (r : PasswdReader) (cfg : AuthConfig) (e : PasswdError)
    → cfg.passwd.enabled ≡ true
    → is_empty (trim_space cfg.passwd.file) ≡ false
    → files.stat cfg.passwd.file ≡ failed e
    → r.loaded ≡ true
    → (read_configured files r cfg.passwd).1 ≡ record (r.cached) { err = some e }
unfolding read_configured read fail_with
read-failed files r cfg e on named gone loaded = rw (on, named, gone, loaded) refl

read-reader :
    (files : Files) (r : PasswdReader) (cfg : AuthConfig) (e : PasswdError)
    → cfg.passwd.enabled ≡ true
    → is_empty (trim_space cfg.passwd.file) ≡ false
    → files.stat cfg.passwd.file ≡ failed e
    → (read_configured files r cfg.passwd).0 ≡ r
unfolding read_configured read
read-reader files r cfg e on named gone = rw (on, named, gone) refl

unenforced :
    (cfg : AuthConfig) (file : PasswdFile)
    → passwd_live cfg.passwd file ≡ false
    → oidc_live cfg.oidc ≡ false
    → (resolve_posture cfg file).posture.enforced ≡ false
unfolding resolve_posture sort_methods insert_method
unenforced cfg file p o = rw (p, o) refl

unread_not_live :
    (cfg : AuthConfig) (file : PasswdFile) (e : PasswdError)
    → file.err ≡ some e
    → passwd_live cfg.passwd file ≡ false
unfolding passwd_live
unread_not_live cfg file e h = ground arith

-- Passwords are enabled with a file, no provider is live, accounts were read before, and the posture
-- that is held, if one is, was resolved at least five seconds ago. If the file cannot be looked up
-- now, the posture that is current no longer enforces: the reader keeps the accounts, and the gate
-- serves every request whose path it accepts, with a session or without.
pub current-guard :
    (lib : Library) (g : Gate) (files : Files) (p : Postures) (cfg : AuthConfig) (e : PasswdError)
    (req : Request) (path : Text) (now : ℕ)
    → p.at + posture_ttl ≤ now
    → cfg.passwd.enabled ≡ true
    → is_empty (trim_space cfg.passwd.file) ≡ false
    → files.stat cfg.passwd.file ≡ failed e
    → p.reader.loaded ≡ true
    → oidc_live cfg.oidc ≡ false
    → normalise lib.unescape req.path ≡ some path
    → ((current files cfg p now).0.reader.cached.entries ≡ p.reader.cached.entries)
      × (guard lib g (current files cfg p now).1.posture req now ≡ served (resolve lib g req now))
unfolding guard current
current-guard lib g files p cfg e req path now old on named gone loaded o n =
    let stale : ltb now (p.at + posture_ttl) ≡ false = ground arith in
    let found = read-failed files p.reader cfg e on named gone loaded in
    let open_now =
      unenforced cfg (record (p.reader.cached) { err = some e })
        (unread_not_live cfg (record (p.reader.cached) { err = some e }) e refl) o in
    let again : (p.loaded && ltb now (p.at + posture_ttl)) ≡ false = ground arith in
    rw (current, again, found)
      (rw (read-reader files p.reader cfg e on named gone) refl, rw (guard, n, open_now) refl)
