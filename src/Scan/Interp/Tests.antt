-- ===== src/Scan/Interp/Tests.antt =====
-- Runs of substitution, and its theorems at inputs that meet their hypotheses.
use labview.Common.{◌≡◌, refl, false, [], ◌∷◌}
use labview.Common.Text.{Text, codes, text_eq, has_byte, has_prefix}
use labview.Common.Map.{Map, lookup}
use labview.Scan.Interp.{
  ◌<>◌, plain, not_set, expand, expand_at, expand_from, round, dollar, eval_braced, plain_lookup,
  scan_name, match_brace, split_operator,
}
use labview.Scan.Interp.Laws.{escape, expand-escape}
use labview.Scan.Interp.Braces.{IsName, referred, expand-referred}

abbrev vars : Map Text
vars = (codes "PORT", codes "80") ∷ []

default_taken : (expand vars (codes "p=${HOST:-${PORT}}$$")).text ≡ codes "p=80$"
unfolding expand expand_at expand_from round dollar eval_braced plain_lookup scan_name match_brace
    split_operator has_byte has_prefix lookup text_eq
default_taken = refl

unset_stays : (expand vars (codes "${HOST}!")).notes ≡ not_set (codes "HOST") ∷ []
unfolding expand expand_at expand_from round dollar eval_braced plain_lookup scan_name match_brace
    split_operator has_byte has_prefix lookup text_eq
unset_stays = refl

host_free : has_byte b'$' (codes "p=") ≡ false
unfolding has_byte
host_free = refl

host-IsName : IsName (codes "HOST")
unfolding scan_name
host-IsName = (refl, refl)

expand-referred_example :
    expand vars (codes "p=${HOST}!")
    ≡ plain (codes "p=") <> referred vars (codes "HOST") <> expand vars (codes "!")
expand-referred_example =
    expand-referred vars (codes "p=") (codes "HOST") (codes "!") host_free host-IsName

expand-escape_example : expand vars (escape (codes "a$b")) ≡ plain (codes "a$b")
expand-escape_example = expand-escape vars (codes "a$b")
