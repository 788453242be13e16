-- ===== src/Secrets/Tests.antt =====
-- The theorems on redaction at concrete inputs.
use labview.Common.{◌≡◌, refl, ◌++◌}
use labview.Common.Text.{codes, has_byte, before, has_prefix, cut_byte}
use labview.Secrets.{
  redact_uris, redact_from, redact_round, redact_authority, cut_mark, cut_last, from_end, mask,
}
use labview.Secrets.Redacted.{redact_uris_loop}
use labview.Secrets.Masked.{credentials, unended, redact_uris-credentials}

two_uris :
    redact_uris (codes "a=db://u:p:w@h/x b=smtp://n@m c=q://u:@h")
    ≡ codes "a=db://u:********@h/x b=smtp://n@m c=q://u:********@h"
unfolding redact_uris redact_from redact_round redact_authority cut_mark cut_last from_end before
    has_prefix cut_byte
two_uris = refl

redact_uris_loop_example :
    redact_uris (codes "db://u:p@h") ≡ redact_round redact_uris (codes "db://u:p@h")
redact_uris_loop_example = redact_uris_loop (codes "db://u:p@h")

redact_uris-credentials_example :
    redact_uris (
      codes "db"
      ++ (codes "://" ++ (credentials (codes "u") (codes "p@w") (codes "h") ++ codes "/x")))
    ≡ codes "db"
      ++ (codes "://" ++ (credentials (codes "u") mask (codes "h") ++ redact_uris (codes "/x")))
unfolding has_byte unended
redact_uris-credentials_example =
    redact_uris-credentials (codes "db") (codes "u") (codes "p@w") (codes "h") (codes "/x") refl
      refl refl refl refl
