-- ===== src/Format/Tests.antt =====
-- A repository with a tool that removes blanks, runs of the command on it, and the theorems there.
use hp_http_server.Common.{
  ℕ, ◌≡◌, ◌≢◌, refl, Bool, true, false, not, ◌&&◌, Option, none, some, some-injective, List, [],
  ◌∷◌, ◌++◌, filter, length, All, if◌then◌else◌, ◌==◌, ok, err, ap, ◌∙◌, sym, Bool-cases, inl, inr,
}
use hp_http_server.Common.Text.{Text, codes, text_eq}
use hp_http_server.Format.Paths.{
  differences, write_failed, not_a_file, symlink, invalid_path, contains, eligible, Tree,
  validate_path,
}
use hp_http_server.Format.Paths.Normal.{validate_path_idem}
use hp_http_server.Format.Names.{names}
use hp_http_server.Format.Version.{find_version}
use hp_http_server.Format.Run.{
  whole, cut_off, Mode, write, check, hook, Options, Repository, Plan, prepare, guarded,
  select_files, main,
}
use hp_http_server.Format.Run.Safety.{Effect, main-Effect}
use hp_http_server.Format.Run.Success.{IsFormatted, main-IsFormatted}
use hp_http_server.Format.Run.Hook.{IsFixed, main-IsFixed, main-IsStaged}
use hp_http_server.Format.Run.Again.{main_again}

abbrev is_ink : ℕ → Bool
is_ink c = not (c == b' ')

abbrev source : Text
source = codes "src/a.cpp"

-- What `git … -z` writes for these names.
abbrev zero_terminated : List Text → Text
zero_terminated [] = []
zero_terminated (name ∷ more) = name ++ (0 ∷ zero_terminated more)

abbrev repository : Text → Repository
repository content = record {
  has_executable = true;
  version_output = codes "clang-format version 18.1.3 (x)";
  unmerged = [];
  tracked = zero_terminated (source ∷ codes "README.md" ∷ codes "third_party/b.cpp" ∷ []);
  staged_present = zero_terminated (source ∷ []);
  staged = zero_terminated (source ∷ []);
  dirty = zero_terminated (codes "README.md" ∷ []);
  index = λ name. some content;
  format = λ name before. some (filter is_ink before);
  decode = λ bytes. bytes;
  write_bytes = λ name after. whole;
}

abbrev tree : Text → Tree
tree content = record {
  is_symlink = λ name. text_eq name (codes "link");
  content = λ name. if text_eq name source then some content else none;
}

abbrev tracked_files : Mode → Options
tracked_files mode = record { mode = mode; manifest = none }

eligible_names :
    (eligible (codes "src/net/a.hpp") ≡ true)
    × (eligible (codes "src/a.py") ≡ false)
    × (eligible (codes "build-x/a.cpp") ≡ false)
    × (eligible (codes "src/.cpp") ≡ false)
unfolding eligible
eligible_names = (refl, refl, refl, refl)

paths_refused :
    (validate_path (tree []) (codes "/src/a.cpp") ≡ err (invalid_path (codes "/src/a.cpp")))
    × (validate_path (tree []) (codes "link/a.cpp") ≡ err (symlink (codes "link/a.cpp")))
    × (validate_path (tree []) (codes "src/b.cpp") ≡ err (not_a_file (codes "src/b.cpp")))
unfolding validate_path
paths_refused = (refl, refl, refl)

version_found : find_version (codes "x version 1.a version 18.1.3-2") ≡ some (codes "18.1.3")
unfolding find_version
version_found = refl

written : (main (repository []) (tracked_files write) (tree (codes "a  b"))).outcome ≡ ok (1, 1)
unfolding main
written = refl

check_refuses :
    (main (repository []) (tracked_files check) (tree (codes "a  b"))).outcome ≡ err differences
unfolding main
check_refuses = refl

hooked :
    (main (repository (codes "ab")) (tracked_files hook) (tree (codes "ab"))).outcome ≡ ok (1, 0)
unfolding main
hooked = refl

filter_idem : (p : ℕ → Bool) (s : Text) → filter p (filter p s) ≡ filter p s
filter_idem p [] = refl
filter_idem p (c ∷ s) = elim (Bool-cases (p c)) [
  | inl kept ↦ rw (kept, kept) (ap (λ (x : Text). c ∷ x) (filter_idem p s))
  | inr dropped ↦ rw dropped (filter_idem p s)
]

format_idem :
    (name before after : Text)
    → (repository []).format name before ≡ some after
    → (repository []).format name after ≡ some after
format_idem name before after h =
    let same = some-injective (filter is_ink before) after h in
    ap (λ (x : Text). some (filter is_ink x)) (sym same)
    ∙ ap some (filter_idem is_ink before ∙ same)

main-Effect_example :
    Effect
      (repository [])
      (tracked_files write)
      (tree (codes "a  b"))
      (main (repository []) (tracked_files write) (tree (codes "a  b")))
      source
main-Effect_example = main-Effect (repository []) (tracked_files write) (tree (codes "a  b")) source

main-IsFormatted_example :
    (p : Plan) × (prepare (repository []) (tracked_files write) (tree (codes "a  b")) ≡ ok p)
    × ◌≡◌ {A = ℕ × ℕ} (length p.files, length p.changes) (1, 1)
    × All
        (IsFormatted
          (repository [])
          (tracked_files write)
          (tree (codes "a  b"))
          (main (repository []) (tracked_files write) (tree (codes "a  b"))).tree)
        p.files
main-IsFormatted_example =
    main-IsFormatted (repository []) (tracked_files write) (tree (codes "a  b")) (1, 1) refl written

main_again_example :
    main
      (repository [])
      (tracked_files write)
      (main (repository []) (tracked_files write) (tree (codes "a  b"))).tree
    ≡ record {
      tree = (main (repository []) (tracked_files write) (tree (codes "a  b"))).tree;
      printed = [];
      outcome = ok (1, 0);
    }
main_again_example =
    main_again (repository []) (tracked_files write) (tree (codes "a  b")) (1, 1) format_idem refl
      refl written

hook_ne_write : hook ≢ write
hook_ne_write h = cc h

main-IsFixed_example :
    (p : Plan) × (prepare (repository (codes "ab")) (tracked_files hook) (tree (codes "ab")) ≡ ok p)
    × ((main (repository (codes "ab")) (tracked_files hook) (tree (codes "ab"))).tree
        ≡ tree (codes "ab"))
    × All (IsFixed (repository (codes "ab")) (tracked_files hook) (tree (codes "ab"))) p.files
main-IsFixed_example =
    main-IsFixed (repository (codes "ab")) (tracked_files hook) (tree (codes "ab")) (1, 0)
      hook_ne_write hooked

main-IsStaged_example :
    (p : Plan) × (selected : List Text) × (prepare
        (repository (codes "ab"))
        (tracked_files hook)
        (tree (codes "ab"))
      ≡ ok p)
    × (select_files (repository (codes "ab")) (tracked_files hook) (tree (codes "ab"))
        ≡ ok selected)
    × All
        (λ (name : Text).
          (content : Text) × (◌≡◌ {A = Option Text} (some (codes "ab")) (some content))
          × (some (filter is_ink content) ≡ some content))
        p.files
    × (contains
          (names (repository (codes "ab")).decode (repository (codes "ab")).dirty)
          (codes ".clang-format")
        ≡ false)
    × ((name : Text)
        → ((contains (names (repository (codes "ab")).decode (repository (codes "ab")).staged) name
              && contains
                  (names (repository (codes "ab")).decode (repository (codes "ab")).dirty)
                  name)
            && contains (selected ++ guarded) name)
          ≡ false)
main-IsStaged_example =
    main-IsStaged (repository (codes "ab")) (tracked_files hook) (tree (codes "ab")) (1, 0) refl
      hooked

validate-source : validate_path (tree []) (codes "./src//a.cpp") ≡ ok source
unfolding validate_path
validate-source = refl

validate_path_idem_example : validate_path (tree []) source ≡ ok source
validate_path_idem_example =
    validate_path_idem (tree []) (codes "./src//a.cpp") source validate-source

-- A write that is cut off leaves its part, and the run says so.
abbrev full_disk : Repository
full_disk = record (repository []) { write_bytes = λ name after. cut_off (codes "a") }

cut_write :
    ((main full_disk (tracked_files write) (tree (codes "a  b"))).tree.content source
      ≡ some (codes "a"))
    × ((main full_disk (tracked_files write) (tree (codes "a  b"))).outcome ≡ err write_failed)
unfolding main
cut_write = (refl, refl)
