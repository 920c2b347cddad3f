-- ===== src/Format/Run/Again.antt =====
-- A second run after one that has written.
use hp_http_server.Common.{
  ℕ, ◌≡◌, refl, ◌∙◌, sym, ap, subst, none, some, List, [], ◌∷◌, length, All, All-mono, inl, inr,
  Outcome, ok, ok-injective,
}
use hp_http_server.Common.Text.{Text, text_eq_refl}
use hp_http_server.Format.Paths.{Failure, Tree, is_file, has_symlink, validate_path}
use hp_http_server.Format.Run.{
  write, Options, Repository, select_files, validate_all, find_changes, hook_index_changes,
  write_changes, Plan, Counts, prepare, main,
}
use hp_http_server.Format.Run.Writes.{
  Writing-cases, find_changes-IsChange, Written, untouched, rewritten, write_changes-Written,
}
use hp_http_server.Format.Run.Safety.{IsPrepared, prepare-IsPrepared}
use hp_http_server.Format.Run.Success.{
  IsCompleted, main-IsCompleted, IsFormatted, main-IsFormatted, apply_changes-writes,
}

-- Two trees with the same links and the same regular files, whatever these hold.
record SameFiles (t u : Tree) : Type 0 where
  links : u.is_symlink ≡ t.is_symlink
  files : (name : Text) → is_file u name ≡ is_file t name

validate_path-SameFiles :
    (t u : Tree) (name : Text) → SameFiles t u → validate_path u name ≡ validate_path t name
unfolding validate_path has_symlink
validate_path-SameFiles t u name s = rw (s.links, s.files) refl

validate_all-SameFiles :
    (t u : Tree) (found : List Text) → SameFiles t u → validate_all u found ≡ validate_all t found
unfolding validate_all
validate_all-SameFiles t u [] s = refl
validate_all-SameFiles t u (name ∷ found) s =
    rw (validate_path-SameFiles t u name s, validate_all-SameFiles t u found s) refl

module _ (repo : Repository) where
  write_changes-is_symlink :
      (changes : List (Text × Text)) (t : Tree)
      → (write_changes repo changes t).0.is_symlink ≡ t.is_symlink
  unfolding write_changes
  write_changes-is_symlink [] t = refl
  write_changes-is_symlink ((name, after) ∷ changes) t =
      elim (Writing-cases (repo.write_bytes name after)) [
        | inl written ↦ rw written (write_changes-is_symlink changes _)
        | inr (inl denied) ↦ rw denied refl
        | inr (inr (left, cut)) ↦ rw cut refl
      ]

  Written-is_file :
      (t u : Tree) (name : Text) → Written repo t u name → is_file u name ≡ is_file t name
  Written-is_file t u name (untouched e) = rw (e, is_file) refl
  Written-is_file t u name (rewritten before after a s f e) = rw (e, s, is_file) refl

  -- Files that the tool leaves as they are give no changes.
  find_changes_fixed :
      (u : Tree) (files : List Text)
      → All
          (λ (name : Text).
            (content : Text) × (u.content name ≡ some content)
            × (repo.format name content ≡ some content))
          files
      → find_changes repo u files ≡ ok []
  unfolding find_changes
  find_changes_fixed u [] h = refl
  find_changes_fixed u (name ∷ files) ((content, stored, fixed), hs) =
      rw (stored, fixed, find_changes_fixed u files hs, text_eq_refl content) refl

  -- A second run is a run on the tree that the first one has left.
  module _ (o : Options) (t : Tree) where
    left-SameFiles :
        (p : Plan) (counts : Counts)
        → o.mode ≡ write
        → IsPrepared repo o t p
        → IsCompleted repo o t counts p
        → SameFiles t (main repo o t).tree
    left-SameFiles p counts m v c =
        subst (SameFiles t)
          (sym (
            c.left
            ∙ ap (λ (r : Tree × Outcome Failure (Unit {0})). r.0)
                (apply_changes-writes repo o t p.changes m)))
          (record {
            links = write_changes-is_symlink p.changes t;
            files = λ name. Written-is_file t (write_changes repo p.changes t).0 name (
                write_changes-Written repo t p.changes t name
                  (find_changes-IsChange repo t p.files p.changes v.accepted v.changed)
                  (untouched refl)
                  (ap (λ (r : Tree × Outcome Failure (Unit {0})). r.1)
                      (sym (apply_changes-writes repo o t p.changes m))
                    ∙ c.written));
          })

    select_files_again :
        (u : Tree) → o.manifest ≡ none → select_files repo o u ≡ select_files repo o t
    unfolding select_files
    select_files_again u listed = rw listed refl

    no_index_changes :
        (files : List Text) → o.mode ≡ write → hook_index_changes repo o.mode files ≡ ok []
    unfolding hook_index_changes
    no_index_changes files m = rw m refl

    prepare_again :
        (p : Plan) (u : Tree)
        → o.mode ≡ write
        → o.manifest ≡ none
        → IsPrepared repo o t p
        → SameFiles t u
        → find_changes repo u p.files ≡ ok []
        → prepare repo o u ≡ ok (record { files = p.files; changes = []; index_changes = [] })
    unfolding prepare
    prepare_again p u m listed v s fixed =
        rw
          (
            v.tools,
            select_files_again u listed,
            v.chosen,
            v.hooked,
            validate_all-SameFiles t u v.selected s,
            v.validated,
            fixed,
            no_index_changes p.files m,
          )
          refl

    main_prepared :
        (u : Tree) (files : List Text)
        → o.mode ≡ write
        → o.manifest ≡ none
        → prepare repo o u ≡ ok (record { files = files; changes = []; index_changes = [] })
        → main repo o u ≡ record { tree = u; printed = []; outcome = ok (length files, 0) }
    unfolding main
    main_prepared u files m listed e = rw (e, m) refl

    -- If the tool leaves its own output as it is, then after a successful run that is neither a check
    -- nor the hook and that took the tracked files, the same run again writes nothing, prints no
    -- name, and reports the same number of files and no change.
    pub main_again :
        (counts : Counts)
        → ((name before after : Text)
            → repo.format name before ≡ some after
            → repo.format name after ≡ some after)
        → o.mode ≡ write
        → o.manifest ≡ none
        → (main repo o t).outcome ≡ ok counts
        → main repo o (main repo o t).tree
          ≡ record { tree = (main repo o t).tree; printed = []; outcome = ok (counts.0, 0) }
    main_again counts idem m listed h =
        let (p, c) = main-IsCompleted repo o t counts h in
        let v = prepare-IsPrepared repo o t p c.prepared in
        let (q, again, numbers, formatted) = main-IsFormatted repo o t counts m h in
        let same : p ≡ q = ok-injective (sym c.prepared ∙ again) in
        let u = (main repo o t).tree in
        let fixed = find_changes_fixed u p.files (
          All-mono (IsFormatted repo o t u)
            (λ (name : Text).
              (content : Text) × (u.content name ≡ some content)
              × (repo.format name content ≡ some content))
            p.files (λ name f. (f.after, f.result, idem name f.before f.after f.formatted))
            (subst (λ (x : Plan). All (IsFormatted repo o t u) x.files) (sym same) formatted)) in
        main_prepared u p.files m listed
          (prepare_again p u m listed v (left-SameFiles p counts m v c) fixed)
        ∙ ap (λ (n : ℕ). record { tree = (main repo o t).tree; printed = []; outcome = ok (n, 0) })
            (ap (λ (x : Plan). length x.files) same ∙ ap (λ (x : Counts). x.0) numbers)
