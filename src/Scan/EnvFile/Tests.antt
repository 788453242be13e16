-- ===== src/Scan/EnvFile/Tests.antt =====
-- The theorems on environment files at concrete inputs, and files that are read.
use labview.Common.{◌≡◌, refl, List, [], ◌∷◌, Option, none, some}
use labview.Common.Text.{
  Text, codes, has_byte, has_prefix, cut_byte, trim_left, trim_right, trim_space, split_byte,
}
use labview.Scan.EnvFile.{
  EnvEntry, trim_prefix, closing_quote, quoted, reveal, unescape_from, unescape, strip_from,
  strip_comment, plain_value, env_value, entry_of, parse_lines, parse_env_file,
}
use labview.Scan.EnvFile.RoundTrip.{is_key, key_bytes, render, parse_env_file-render}

abbrev entry : Text → Option Text → EnvEntry
entry k v = record { key = k; value = v }

reads_file :
    parse_env_file (codes "# c\nexport A = x#y # z\nTZ\nB='q\nr' tail\nC=\"a\\nb\nD=1")
    ≡ entry (codes "A") (some (codes "x#y"))
      ∷ entry (codes "TZ") none
      ∷ entry (codes "B") (some (codes "q\nr"))
      ∷ entry (codes "C") (some (codes "\"a\\nb"))
      ∷ entry (codes "D") (some (codes "1"))
      ∷ []
unfolding parse_env_file trim_prefix parse_lines entry_of env_value plain_value strip_comment
    strip_from unescape unescape_from reveal quoted closing_quote has_byte has_prefix cut_byte
    trim_left trim_right trim_space split_byte
reads_file = refl

abbrev entries : List EnvEntry
entries = entry (codes "A") (some (codes "x\n\"y\\")) ∷ entry (codes "TZ") none ∷ []

parse_env_file-render_example : parse_env_file (render entries) ≡ entries
unfolding is_key key_bytes
parse_env_file-render_example = parse_env_file-render entries (refl, (refl, tt))
