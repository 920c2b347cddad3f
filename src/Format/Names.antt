-- ===== src/Format/Names.antt =====
-- `names` of scripts/format_cpp.py and the sets of names that `main` builds, as lists.
pub mod Sorted
use hp_http_server.Common.{
  ℕ, Bool, true, false, not, ◌&&◌, List, [], ◌∷◌, filter, map, if◌then◌else◌,
}
use hp_http_server.Common.Text.{Text, text_eq, text_lt, is_empty, split_on}
use hp_http_server.Format.Paths.{contains}

unfoldable pub insert_name : Text → List Text → List Text
insert_name name [] = name ∷ []
insert_name name (other ∷ sorted) =
    let rest = insert_name name sorted in
    if text_eq name other
    then other ∷ sorted
    else if text_lt name other
    then name ∷ other ∷ sorted
    else other ∷ rest

-- `sorted` of a set of these names.
unfoldable pub sorted_set : List Text → List Text
unfolding insert_name
sorted_set [] = []
sorted_set (name ∷ names) = insert_name name (sorted_set names)

-- The set of the names in the output of `git … -z`, which ends each with a zero byte; a set is the sorted
-- list of its members. `decode` is `bytes.decode` with `surrogateescape`, which does not raise.
unfoldable pub names : (Text → Text) → Text → List Text
unfolding split_on sorted_set
names decode output =
    sorted_set (map decode (filter (λ (name : Text). not (is_empty name)) (split_on 0 output)))

-- The names of the first list that are in the second.
abbrev pub common : List Text → List Text → List Text
common a b = filter (contains b) a
