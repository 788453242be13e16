-- ===== src/Access/Postures/Tests.antt =====
-- Postures that are resolved, with a passwd file that was read and is then gone.
use labview.Common.{arith, ◌*◌, ◌≡◌, refl, true, false, [], ◌∷◌, none, some}
use labview.Common.Text.{
  codes, is_empty, trim_space, trim_left, trim_right, split_byte, before, contains, text_eq,
}
use labview.Access.Session.{second}
use labview.Access.Session.Toy.{toy, signer}
use labview.Access.Cookies.{Request}
use labview.Access.Gate.{
  Library, Gate, served, guard, resolve, normalise, normal_path, collapse, trim_slash,
}
use labview.Access.Passwd.{PasswdFile, PasswdReader, Files, missing, failed}
use labview.Access.Postures.{AuthConfig, Postures, current, oidc_live, resolve_posture}
use labview.Access.Postures.Live.{IsResolved, resolve_posture-IsResolved}
use labview.Access.Postures.Opened.{current-guard}

abbrev cfg : AuthConfig
cfg = record {
  passwd = record { enabled = true; file = codes "/pw" };
  oidc = record { enabled = false; issuer = []; client_id = []; label = [] };
}

abbrev accounts : PasswdFile
accounts = record { entries = (codes "ann", codes "$2a$x") ∷ []; warnings = []; err = none }

resolve_posture-IsResolved_example : IsResolved cfg accounts
resolve_posture-IsResolved_example = resolve_posture-IsResolved cfg accounts

abbrev gone : Files
gone = record { stat = λ p. failed missing; read_file = λ p. failed missing }

abbrev reader : PasswdReader
reader = record {
  path = codes "/pw";
  at = record { size = 12; mtime = 5; inode = 7 };
  cached = accounts;
  loaded = true;
}

abbrev lib : Library
lib = record { codec = toy; unescape = some; parse = λ s. none }

abbrev gate : Gate
gate = record { signer = signer; cookies = record { name = []; secure = codes "auto" } }

abbrev request : Request
request = record {
  method = codes "GET";
  path = codes "/x";
  host = codes "lab";
  tls = false;
  header = λ name. [];
  cookie = λ name. none;
}

named : is_empty (trim_space (codes "/pw")) ≡ false
unfolding trim_space trim_left trim_right
named = refl

no_provider : oidc_live cfg.oidc ≡ false
unfolding oidc_live
no_provider = refl

path_normal : normalise lib.unescape request.path ≡ some (codes "/x")
unfolding normalise before normal_path collapse trim_slash split_byte contains text_eq
path_normal = refl

-- The accounts were read, and then five seconds went by.
abbrev held_before : Postures
held_before = record {
  held = resolve_posture cfg accounts;
  at = second;
  loaded = true;
  previous = none;
  reader = reader;
}

current-guard_example :
    ((current gone cfg held_before (6 * second)).0.reader.cached.entries ≡ accounts.entries)
    × (guard lib gate (current gone cfg held_before (6 * second)).1.posture request (6 * second)
        ≡ served (resolve lib gate request (6 * second)))
current-guard_example =
    current-guard lib gate gone held_before cfg missing request (codes "/x") (6 * second)
      (omega arith) refl named refl refl no_provider path_normal
