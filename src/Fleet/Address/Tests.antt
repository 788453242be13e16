-- ===== src/Fleet/Address/Tests.antt =====
-- Addresses with credentials.
use labview.Common.{◌≡◌, refl, false, ◌∷◌, ◌++◌}
use labview.Common.Text.{Text, codes, has_byte, has_prefix, trim_space, trim_left, trim_right}
use labview.Fleet.Address.{parse_address, has_path}
use labview.Fleet.Address.Written.{with_scheme, parse_address-credentials, parse_address-late}

abbrev http : Text
http = codes "http"

userinfo_bare : has_path (codes "u:pw") ≡ false
unfolding has_path
userinfo_bare = refl

trimmed : trim_space (codes "http://u:pw@nas:80/x") ≡ codes "http://u:pw@nas:80/x"
unfolding trim_space trim_left trim_right
trimmed = refl

trimmed_bare : trim_space (codes "http://nas:80/x") ≡ codes "http://nas:80/x"
unfolding trim_space trim_left trim_right
trimmed_bare = refl

parse_address-credentials_example :
    parse_address (with_scheme http (codes "u:pw" ++ b'@' ∷ codes "nas:80/x"))
    ≡ record (parse_address (with_scheme http (codes "nas:80/x"))) {
      raw = codes "http://u:pw@nas:80/x";
    }
unfolding has_byte
parse_address-credentials_example =
    parse_address-credentials http (codes "u:pw") (codes "nas:80/x") refl userinfo_bare refl trimmed
      trimmed_bare

authority_bare : has_path (codes "u:pw@nas") ≡ false
unfolding has_path
authority_bare = refl

no_bracket : has_prefix (codes "u:pw@nas") (codes "[") ≡ false
unfolding has_prefix
no_bracket = refl

trimmed_late : trim_space (codes "http://u:pw@nas/x@y") ≡ codes "http://u:pw@nas/x@y"
unfolding trim_space trim_left trim_right
trimmed_late = refl

parse_address-late_example : (parse_address (codes "http://u:pw@nas/x@y")).port ≡ codes "pw@nas"
unfolding has_byte
parse_address-late_example =
    parse_address-late http (codes "u") (codes "pw") (codes "nas") (codes "x") (codes "y") refl refl
      refl authority_bare no_bracket refl refl trimmed_late
