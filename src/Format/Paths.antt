-- ===== src/Format/Paths.antt =====
-- `eligible` and `validate_path` of scripts/format_cpp.py, with what they use of `pathlib`: a path
-- is its root and its parts. What the file system answers is a `Tree`, by the names in normal form.
pub mod Normal
use hp_http_server.Common.{
  ℕ, ◌≡◌, Bool, true, false, not, ◌&&◌, ◌||◌, Option, none, some, List, [], ◌∷◌, ◌++◌, map, any,
  filter, if◌then◌else◌, ◌==◌, Outcome, ok, err, ◌>>=◌, ◌>>◌, demand,
}
use hp_http_server.Common.Text.{Text, codes, text_eq, starts_with, is_empty, split_on, join}

pub data Failure : Type 0 where
  usage no_tool conflicts config_unstaged tool_failed write_failed differences no_index : Failure
  wrong_version : Text → Failure
  partly_staged index_differences : List Text → Failure
  invalid_path symlink not_a_file : Text → Failure

abbrev pub contains : List Text → Text → Bool
contains names name = any (text_eq name) names

-- `EXTENSIONS` and `EXCLUDED`
abbrev pub extensions : List Text
extensions =
    codes ".cpp" ∷ codes ".h" ∷ codes ".cc" ∷ codes ".hpp" ∷ codes ".cxx" ∷ codes ".hxx" ∷ []

abbrev pub excluded : List Text
excluded =
    codes "third_party" ∷ codes "vendor" ∷ codes "generated" ∷ codes "build" ∷ codes ".cache" ∷ []

-- A `PurePosixPath`; its parts stand without the root.
pub record PurePath : Type 0 where
  pub is_absolute : Bool
  pub parts : List Text

abbrev pub is_part : Text → Bool
is_part part = not (is_empty part) && not (text_eq part (codes "."))

unfoldable pub path_of : Text → PurePath
unfolding split_on
path_of name = record {
  is_absolute = starts_with name (codes "/");
  parts = filter is_part (split_on b'/' name);
}

-- `as_posix()` of a relative path with these parts.
unfoldable pub posix : List Text → Text
unfolding join
posix [] = codes "."
posix (part ∷ parts) = join b'/' (part ∷ parts)

unfoldable pub last_part : List Text → Text
last_part [] = []
last_part (part ∷ []) = part
last_part (part ∷ q ∷ parts) = last_part (q ∷ parts)

-- The text from its last dot on.
unfoldable pub last_dot : Text → Option Text
last_dot [] = none
last_dot (c ∷ s) = elim (last_dot s) [
  | some found ↦ some found
  | none ↦ if c == b'.' then some (c ∷ s) else none
]

-- `suffix`: neither a leading dot nor a dot at the end counts.
unfoldable pub suffix_of : Text → Text
unfolding last_dot
suffix_of [] = []
suffix_of (c ∷ s) = elim (last_dot s) [
  | some found ↦ if text_eq found (codes ".") then [] else found
  | none ↦ []
]

abbrev pub is_excluded : Text → Bool
is_excluded part = contains excluded part || starts_with part (codes "build-")

unfoldable pub eligible_parts : List Text → Bool
unfolding suffix_of last_part
eligible_parts parts =
    contains extensions (suffix_of (last_part parts)) && not (any is_excluded parts)

unfoldable pub eligible : Text → Bool
unfolding path_of eligible_parts
eligible name = eligible_parts (path_of name).parts

-- The work tree: which names are symbolic links, and the content of each regular file.
pub record Tree : Type 0 where
  pub is_symlink : Text → Bool
  pub content : Text → Option Text

abbrev pub is_file : Tree → Text → Bool
is_file t name = elim (t.content name) [ some content ↦ true | none ↦ false ]

-- The path itself and its parents, the last of which is `.`.
unfoldable pub lineage : List Text → List (List Text)
lineage [] = [] ∷ []
lineage (part ∷ parts) = [] ∷ map (λ (tail : List Text). part ∷ tail) (lineage parts)

unfoldable pub has_symlink : Tree → List Text → Bool
unfolding lineage posix
has_symlink t parts = any (λ (l : List Text). t.is_symlink (posix l)) (lineage parts)

unfoldable pub validate_path : Tree → Text → Outcome Failure Text
unfolding path_of eligible posix has_symlink
validate_path t name = do
  demand
      (not (
        (path_of name).is_absolute
        || contains (path_of name).parts (codes "..")
        || not (eligible name)))
      (invalid_path name)
  demand (not (has_symlink t (path_of name).parts)) (symlink name)
  demand (is_file t (posix (path_of name).parts)) (not_a_file name)
  ok (posix (path_of name).parts)
