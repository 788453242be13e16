-- ===== src/Labels/Traefik/Tests.antt =====
-- Rules that are read, and one that panics.
use labview.Common.{◌≡◌, ◌==◌, refl, arith, true, [], ◌∷◌, ◌++◌, some, none, if◌then◌else◌}
use labview.Common.Text.{Text, ascii, codes, has_byte, to_lower, lower_byte}
use labview.Common.Trim.{free}
use labview.Labels.Traefik.{rule_hosts, is_quote}
use labview.Labels.Traefik.Routed.{quoted_rule, rule_hosts-quoted, rule_hosts-grown}

host_free : free is_quote (codes "a.Example") ≡ true
unfolding free
host_free = refl

rule_hosts-quoted_example :
    rule_hosts to_lower (quoted_rule (codes "a.Example")) ≡ some (codes "a.Example" ∷ [])
unfolding has_byte ascii
rule_hosts-quoted_example =
    rule_hosts-quoted to_lower (codes "a.Example") (λ s h. refl) refl refl host_free refl refl

-- The letter U+023A, two bytes, whose small letter U+2C65 is three; four of them.
abbrev strokes : Text
strokes = 200 ∷ 186 ∷ 200 ∷ 186 ∷ 200 ∷ 186 ∷ 200 ∷ 186 ∷ []

-- Lowering, on texts of that letter and of ASCII ones, byte by byte.
unfoldable lower : Text → Text
lower [] = []
lower (c ∷ s) =
    let rest = lower s in
    if c == 200 then 226 ∷ 177 ∷ rest else if c == 186 then 165 ∷ rest else lower_byte c ∷ rest

abbrev lowered_args : Text
lowered_args =
    b'`' ∷ 226 ∷ 177 ∷ 165 ∷ 226 ∷ 177 ∷ 165 ∷ 226 ∷ 177 ∷ 165 ∷ 226 ∷ 177 ∷ 165 ∷ b'`' ∷ []

lowered : lower (quoted_rule strokes) ≡ codes "host(" ++ (lowered_args ++ b')' ∷ [])
unfolding lower
lowered = refl

rule_hosts-grown_example : rule_hosts lower (quoted_rule strokes) ≡ none
unfolding has_byte
rule_hosts-grown_example = rule_hosts-grown lower strokes lowered_args lowered refl (omega arith)
