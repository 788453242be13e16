-- ===== src/Access/Passwd/Tests.antt =====
-- Passwd files that are read.
use labview.Common.{◌∷◌, ◌++◌}
use labview.Common.Text.{Text, codes}
use labview.Access.Passwd.{parse_passwd}
use labview.Access.Passwd.Accepted.{IsTable, parse_passwd-IsTable}

abbrev sample : Text
sample =
    codes "# accounts"
    ++ 10 ∷ codes "ann: $2a$10$abc"
    ++ 13 ∷ 10 ∷ codes "bob:plain"
    ++ 10 ∷ codes "ann:$2b$x"
    ++ 10 ∷ codes "eve:$2y$z"

parse_passwd-IsTable_example : IsTable (parse_passwd sample).entries
parse_passwd-IsTable_example = parse_passwd-IsTable sample
