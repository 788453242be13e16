-- ===== src/Labels/Tests.antt =====
-- Labels that are read.
use labview.Common.{
  ◌≡◌, refl, true, ◌&&◌, [], ◌∷◌, ◌++◌, none, some, All, inl, inr, leb, if◌then◌else◌,
}
use labview.Common.Text.{
  Text, codes, has_byte, sort_texts, insert_text, text_lt, text_eq, to_lower, cut_byte, contains,
  trim_space, trim_left, trim_right,
}
use labview.Common.Map.{Map, lookup, insert}
use labview.Labels.{
  cloudflare, governing_of, cf_split_index, max_index, sort_groups, group_labels, after_prefix,
  add_label, index_from, insert_group, cf_field, without_dashes, falsy,
}
use labview.Labels.Indexed.{all_digits, number_from, cf_split_index-number_from}
use labview.Labels.Declared.{IsOff, groups_of, cloudflare_off}

abbrev staged : Map Text
staged = (codes "df.enable", codes "no") ∷ (codes "df.1.hostname", codes "a.example") ∷ []

cf_split_index-number_from_example : cf_split_index (codes "12" ++ b'.' ∷ codes "hostname") ≡ (
    if all_digits (codes "12") && leb (number_from 0 (codes "12")) max_index
    then (some (number_from 0 (codes "12")), codes "hostname")
    else (none, codes "12" ++ b'.' ∷ codes "hostname"))
unfolding has_byte
cf_split_index-number_from_example =
    cf_split_index-number_from (codes "12") (codes "hostname") refl refl

governed : governing_of (groups_of staged (codes "df")) ≡ some (codes "no")
unfolding governing_of sort_groups group_labels sort_texts insert_text text_lt after_prefix text_eq
    to_lower add_label cf_split_index cut_byte index_from insert_group lookup cf_field contains
    insert without_dashes
governed = refl

off : falsy (codes "no") ≡ true
unfolding falsy contains text_eq to_lower trim_space trim_left trim_right
off = refl

All-IsOff : All IsOff (groups_of staged (codes "df"))
unfolding governing_of sort_groups group_labels sort_texts insert_text text_lt after_prefix text_eq
    to_lower add_label cf_split_index cut_byte index_from insert_group lookup cf_field contains
    insert without_dashes IsOff falsy trim_space trim_left trim_right
All-IsOff = (inl (codes "no", refl, refl), (inr (refl, refl), tt))

cloudflare_off_example : cloudflare staged (codes "df") ≡ ([], [])
cloudflare_off_example = cloudflare_off staged (codes "df") (codes "no") governed off All-IsOff
