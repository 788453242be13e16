-- ===== src/Access/Session/Tests.antt =====
-- The theorems on sessions at concrete inputs.
use labview.Common.{◌*◌, ◌≡◌, ◌↔◌}
use labview.Access.Session.{accepted, second, verify}
use labview.Access.Session.Tokens.{IsGenuine, verify_accepts_iff}
use labview.Access.Session.Toy.{toy, signer, claims, token}

verify_accepts_iff_example :
    (verify toy signer token (104 * second) ≡ accepted claims)
    ↔ IsGenuine toy signer token (104 * second) claims
verify_accepts_iff_example = verify_accepts_iff toy signer token (104 * second) claims
