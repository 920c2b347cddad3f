-- ===== src/Format/Run.antt =====
-- `main` of scripts/format_cpp.py. What git and clang-format answer is a `Repository`; a git call
-- that fails ends the run like a failing clang-format, and is modelled for `git show` only. The run
-- leaves a work tree, the printed names and an outcome, which the caller turns into an exit status.
pub mod Writes
pub mod Safety
pub mod Success
pub mod Hook
pub mod Again
use hp_http_server.Common.{
  ℕ, Bool, true, false, not, ◌&&◌, ◌||◌, Option, none, some, List, [], ◌∷◌, ◌++◌, map, filter,
  length, if◌then◌else◌, Outcome, ok, err, ◌>>=◌, ◌>>◌, demand, required,
}
use hp_http_server.Common.Text.{Text, codes, text_eq, is_empty}
use hp_http_server.Format.Paths.{
  Failure, usage, no_tool, conflicts, config_unstaged, tool_failed, write_failed, differences,
  no_index, wrong_version, partly_staged, index_differences, not_a_file, contains, eligible, Tree,
  validate_path,
}
use hp_http_server.Format.Names.{names, sorted_set, common}
use hp_http_server.Format.Version.{find_version}

pub data Mode : Type 0 where
  write check hook : Mode

abbrev pub is_hook : Mode → Bool
is_hook hook = true
is_hook write = false
is_hook check = false

abbrev pub is_check : Mode → Bool
is_check check = true
is_check write = false
is_check hook = false

-- `manifest` holds the lines of `--files-from`.
pub record Options : Type 0 where
  pub mode : Mode
  pub manifest : Option (List Text)

-- What became of `path.write_bytes`: it wrote everything, it raised before it touched the file, or it raised
-- when the file was cut and had these bytes.
pub data Writing : Type 0 where
  whole : Writing
  refused : Writing
  cut_off : Text → Writing

-- What the environment answers: the outputs of git, `bytes.decode` with `surrogateescape`, clang-format on a
-- name and a content, and the writes.
pub record Repository : Type 0 where
  pub has_executable : Bool
  pub version_output : Text
  pub unmerged : Text
  pub tracked : Text
  pub staged_present : Text
  pub staged : Text
  pub dirty : Text
  pub index : Text → Option Text
  pub format : Text → Text → Option Text
  pub decode : Text → Text
  pub write_bytes : Text → Text → Writing

-- `VERSION`
abbrev pub version : Text
version = codes "18.1.3"

abbrev pub is_version : Option Text → Bool
is_version none = false
is_version (some found) = text_eq found version

pub record Plan : Type 0 where
  pub files : List Text
  pub changes : List (Text × Text)
  pub index_changes : List Text

-- The number of files and of changes that are reported at the end.
abbrev pub Counts : Type 0
Counts = ℕ × ℕ

unfoldable pub conclude : Mode → Plan → Outcome Failure Counts
conclude mode p = do
  demand (is_empty p.changes || not (is_hook mode || is_check mode)) differences
  demand (is_empty p.index_changes) (index_differences p.index_changes)
  ok (length p.files, length p.changes)

pub record Report : Type 0 where
  pub tree : Tree
  pub printed : List Text
  pub outcome : Outcome Failure Counts

abbrev pub finished : Mode → Plan → Tree × Outcome Failure (Unit {0}) → Report
finished mode p (t, err e) = record { tree = t; printed = []; outcome = err e }
finished mode p (t, ok u) = record {
  tree = t;
  printed = map (λ (c : Text × Text). c.0) p.changes;
  outcome = conclude mode p;
}

abbrev pub read_file : Tree → Text → Outcome Failure Text
read_file t name = required (t.content name) (not_a_file name)

abbrev pub put_content : Text → Text → Tree → Tree
put_content name content t = record t {
  content = λ (other : Text). if text_eq other name then some content else t.content other;
}

abbrev pub guarded : List Text
guarded = codes ".clang-format" ∷ codes "scripts/format_cpp.py" ∷ codes ".githooks/pre-commit" ∷ []

abbrev pub is_listed : Option (List Text) → Bool
is_listed none = false
is_listed (some lines) = true

unfoldable pub validate_all : Tree → List Text → Outcome Failure (List Text)
unfolding validate_path
validate_all t [] = ok []
validate_all t (name ∷ more) = do
  valid ← validate_path t name
  rest ← validate_all t more
  ok (valid ∷ rest)

unfoldable pub select_listed : Tree → List Text → Outcome Failure (List Text)
unfolding validate_all sorted_set
select_listed t lines = do
  valid ← validate_all t (filter (λ (name : Text). not (is_empty name)) lines)
  ok (sorted_set valid)

module _ (repo : Repository) where
  unfoldable pub check_tools : Outcome Failure (Unit {0})
  unfolding find_version
  check_tools = do
    demand repo.has_executable no_tool
    demand (is_version (find_version repo.version_output)) (wrong_version repo.version_output)
    demand (is_empty repo.unmerged) conflicts

  unfoldable pub select_files : Options → Tree → Outcome Failure (List Text)
  unfolding select_listed names eligible sorted_set
  select_files o t = elim o.manifest [
    | some lines ↦ select_listed t lines
    | none ↦
        if is_hook o.mode
        then ok (sorted_set (filter eligible (names repo.decode repo.staged_present)))
        else ok (sorted_set (filter eligible (names repo.decode repo.tracked)))
  ]

  -- The files of the hook that are staged and have changes that are not.
  unfoldable pub partly_staged_of : List Text → List Text
  unfolding names
  partly_staged_of files =
      common (common (names repo.decode repo.staged) (names repo.decode repo.dirty))
        (files ++ guarded)

  unfoldable pub check_hook : Mode → List Text → Outcome Failure (Unit {0})
  unfolding names partly_staged_of sorted_set
  check_hook mode files =
      if is_hook mode
      then (do
        demand (not (contains (names repo.decode repo.dirty) (codes ".clang-format")))
            config_unstaged
        demand (is_empty (partly_staged_of files))
            (partly_staged (sorted_set (partly_staged_of files))))
      else ok tt

  abbrev pub run_tool : Text → Text → Outcome Failure Text
  run_tool name before = required (repo.format name before) tool_failed

  -- The paths whose content the tool would change, with what it would be.
  unfoldable pub find_changes : Tree → List Text → Outcome Failure (List (Text × Text))
  find_changes t [] = ok []
  find_changes t (name ∷ files) = do
    before ← read_file t name
    after ← run_tool name before
    rest ← find_changes t files
    ok (if text_eq before after then rest else (name, after) ∷ rest)

  abbrev pub show_index : Text → Outcome Failure Text
  show_index name = required (repo.index name) no_index

  unfoldable pub find_index_changes : List Text → Outcome Failure (List Text)
  find_index_changes [] = ok []
  find_index_changes (name ∷ files) = do
    indexed ← show_index name
    formatted ← run_tool name indexed
    rest ← find_index_changes files
    ok (if text_eq indexed formatted then rest else name ∷ rest)

  unfoldable pub hook_index_changes : Mode → List Text → Outcome Failure (List Text)
  unfolding find_index_changes
  hook_index_changes mode files = if is_hook mode then find_index_changes files else ok []

  abbrev pub after_write :
      Writing → Text → Tree → Tree × Outcome Failure (Unit {0}) → Tree × Outcome Failure (Unit {0})
  after_write whole name t rest = rest
  after_write refused name t rest = (t, err write_failed)
  after_write (cut_off left) name t rest = (put_content name left t, err write_failed)

  -- `path.write_bytes` of each change; the first one that fails ends the run.
  unfoldable pub write_changes : List (Text × Text) → Tree → Tree × Outcome Failure (Unit {0})
  write_changes [] t = (t, ok tt)
  write_changes ((name, after) ∷ changes) t =
      let rest = write_changes changes (put_content name after t) in
      after_write (repo.write_bytes name after) name t rest

  unfoldable pub apply_changes :
      Mode → List (Text × Text) → Tree → Tree × Outcome Failure (Unit {0})
  unfolding write_changes
  apply_changes mode changes t = if is_check mode then (t, ok tt) else write_changes changes t

  -- All that happens before the first write.
  unfoldable pub prepare : Options → Tree → Outcome Failure Plan
  unfolding check_tools select_files check_hook validate_all find_changes hook_index_changes
  prepare o t = do
    check_tools
    selected ← select_files o t
    check_hook o.mode selected
    files ← validate_all t selected
    changes ← find_changes t files
    index_changes ← hook_index_changes o.mode files
    ok (record { files = files; changes = changes; index_changes = index_changes })

  unfoldable pub execute : Mode → Tree → Outcome Failure Plan → Report
  unfolding apply_changes conclude
  execute mode t (err e) = record { tree = t; printed = []; outcome = err e }
  execute mode t (ok p) = finished mode p (apply_changes mode p.changes t)

  unfoldable pub main : Options → Tree → Report
  unfolding prepare execute
  main o t =
      if is_hook o.mode && is_listed o.manifest
      then record { tree = t; printed = []; outcome = err usage }
      else execute o.mode t (prepare o t)
