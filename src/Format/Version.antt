-- ===== src/Format/Version.antt =====
-- The search for the version in scripts/format_cpp.py: `version (\d+\.\d+\.\d+)`. A digit and a dot
-- exclude one another, so each greedy group has one way to match. Of the digits that `\d` matches
-- only the ASCII ones are modelled.
use hp_http_server.Common.{Option, none, some, [], ◌∷◌, ◌++◌, ◌==◌, if◌then◌else◌}
use hp_http_server.Common.Text.{Text, codes}
use hp_http_server.Common.Search.{◌>>=◌, span_digits, after_prefix, search_text}

abbrev dot_of : Text → Option Text
dot_of [] = none
dot_of (c ∷ s) = if c == b'.' then some s else none

abbrev number_of : Text × Text → Option (Text × Text)
number_of ([], s) = none
number_of (d ∷ digits, s) = some (d ∷ digits, s)

-- `\d+\.\d+\.\d+` at the head of the text.
unfoldable pub triple_at : Text → Option Text
unfolding span_digits
triple_at s = do
  (major, s1) ← number_of (span_digits s)
  s2 ← dot_of s1
  (minor, s3) ← number_of (span_digits s2)
  s4 ← dot_of s3
  (patch, s5) ← number_of (span_digits s4)
  some (major ++ (b'.' ∷ (minor ++ (b'.' ∷ patch))))

unfoldable pub version_at : Text → Option Text
unfolding after_prefix triple_at
version_at s = do rest ← after_prefix (codes "version ") s; triple_at rest

unfoldable pub find_version : Text → Option Text
unfolding version_at search_text
find_version s = search_text version_at s
