-- ===== src/Format/Run/Hook.antt =====
-- What a check and the commit hook promise when they succeed.
use hp_http_server.Common.{
  ◌≡◌, ◌≢◌, refl, ◌∙◌, sym, ap, subst, Bool, true, false, not, ◌&&◌, ◌||◌, none, some, List, [],
  ◌∷◌, ◌++◌, All, All-mono, if◌then◌else◌, Bool-cases, inl, inr, ok, demand, >>=-eq-ok,
  demand-eq-ok, ok-injective, required-eq-ok, arith,
}
use hp_http_server.Common.Text.{Text, codes, text_eq, text_eq_iff, is_empty}
use hp_http_server.Format.Paths.{
  config_unstaged, partly_staged, tool_failed, no_index, contains, Tree,
}
use hp_http_server.Format.Names.{names, sorted_set, common}
use hp_http_server.Format.Run.{
  Mode, write, check, hook, is_hook, is_check, Options, Repository, check_hook, guarded,
  partly_staged_of, find_index_changes, hook_index_changes, show_index, run_tool, apply_changes,
  write_changes, Plan, Counts, prepare, main, select_files,
}
use hp_http_server.Format.Run.Writes.{IsPlanned, find_changes-IsPlanned}
use hp_http_server.Format.Run.Safety.{prepare-IsPrepared}
use hp_http_server.Format.Run.Success.{is_empty-eq-nil, conclude-ok, main-IsCompleted}

contains-common_from :
    (a b : List Text) (x : Text) → contains (common a b) x ≡ (contains a x && contains b x)
contains-common_from [] b x = refl
contains-common_from (y ∷ a) b x = elim (Bool-cases (contains b y)) [
  | inl here ↦
      rw (here, contains-common_from a b x)
        (elim (Bool-cases (text_eq x y)) [
          | inl same ↦ rw (same, (text_eq_iff x y).0 same, here) refl
          | inr other ↦ rw other refl
        ])
  | inr gone ↦
      rw (gone, contains-common_from a b x)
        (elim (Bool-cases (text_eq x y)) [
          | inl same ↦
              let absent : contains b x ≡ false =
                ap (contains b) ((text_eq_iff x y).0 same) ∙ gone in
              rw absent (both_false (contains a x) (text_eq x y))
          | inr other ↦ rw other refl
        ])
]
  where
    both_false : (a b : Bool) → (a && false) ≡ ((b || a) && false)
    both_false a b = ground arith

module _ (repo : Repository) where
  find_index_changes-nil :
      (files : List Text)
      → find_index_changes repo files ≡ ok []
      → All
          (λ (name : Text).
            (content : Text) × (repo.index name ≡ some content)
            × (repo.format name content ≡ some content))
          files
  unfolding find_index_changes
  find_index_changes-nil [] h = tt
  find_index_changes-nil (name ∷ files) h =
      let (indexed, shown, h1) = >>=-eq-ok (show_index repo name) _ h in
      let (formatted, tool, h2) = >>=-eq-ok (run_tool repo name indexed) _ h1 in
      let (rest, more, h3) = >>=-eq-ok (find_index_changes repo files) _ h2 in
      let (same, none_left) = split rest (text_eq indexed formatted) (ok-injective h3) in
      (
        (
          indexed,
          required-eq-ok (repo.index name) no_index shown,
          required-eq-ok (repo.format name indexed) tool_failed tool
              ∙ ap some (sym ((text_eq_iff indexed formatted).0 same)),
        ),
        find_index_changes-nil files (more ∙ ap ok none_left),
      )
    where
      split :
          (rest : List Text) (b : Bool)
          → (if b then rest else name ∷ rest) ≡ []
          → (b ≡ true) × (rest ≡ [])
      split rest true e = (refl, e)
      split rest false e = cc

module _ (repo : Repository) (o : Options) (t : Tree) where
  -- The tool accepts the content of the file and leaves it as it is.
  abbrev pub IsFixed : Text → Type 0
  IsFixed name =
      (content : Text) × (t.content name ≡ some content) × (repo.format name content ≡ some content)

  -- No tree holds the outcome of a change, so that a planned file has none.
  abbrev nowhere : Tree
  nowhere = record { is_symlink = λ _. false; content = λ _. none }

  planned-IsFixed : (name : Text) → IsPlanned repo t nowhere name → IsFixed name
  planned-IsFixed name p = elim p.settled [
    | inl same ↦ (p.before, p.stored, p.formatted ∙ ap some (sym same))
    | inr held ↦ cc held
  ]

  apply_changes-nil :
      (changes : List (Text × Text)) → changes ≡ [] → (apply_changes repo o.mode changes t).0 ≡ t
  unfolding apply_changes write_changes
  apply_changes-nil changes e = rw e (elim (Bool-cases (is_check o.mode)) [
    | inl checking ↦ rw checking refl
    | inr writing ↦ rw writing refl
  ])

  -- If a check or the commit hook succeeds, then it has left the work tree as it was, and the tool
  -- accepts the content of each selected file and leaves it as it is.
  pub main-IsFixed :
      (counts : Counts)
      → o.mode ≢ write
      → (main repo o t).outcome ≡ ok counts
      → (p : Plan) × (prepare repo o t ≡ ok p) × ((main repo o t).tree ≡ t) × All IsFixed p.files
  main-IsFixed counts m h =
      let (p, c) = main-IsCompleted repo o t counts h in
      let v = prepare-IsPrepared repo o t p c.prepared in
      let (unchanged, _, _) = conclude-ok o.mode p counts c.concluded in
      let none_changed = is_empty-eq-nil p.changes (strict o.mode m unchanged) in
      (
        p,
        c.prepared,
        c.left ∙ apply_changes-nil p.changes none_changed,
        All-mono (IsPlanned repo t nowhere) IsFixed p.files planned-IsFixed
            (find_changes-IsPlanned repo t nowhere p.files [] (v.changed ∙ ap ok none_changed) tt),
      )
    where
      strict :
          {b : Bool} (mode : Mode)
          → mode ≢ write
          → (b || not (is_hook mode || is_check mode)) ≡ true
          → b ≡ true
      strict write n e = absurd (n refl)
      strict {b} check n e = ground (arith, e)
      strict {b} hook n e = ground (arith, e)

  check_hook-ok :
      (selected : List Text)
      → o.mode ≡ hook
      → check_hook repo o.mode selected ≡ ok tt
      → (contains (names repo.decode repo.dirty) (codes ".clang-format") ≡ false)
        × (partly_staged_of repo selected ≡ [])
  unfolding check_hook
  check_hook-ok selected m h =
      let h0 = subst (λ (x : Mode). check_hook repo x selected ≡ ok tt) m h in
      let (_, configured, h1) =
        >>=-eq-ok
          (demand (not (contains (names repo.decode repo.dirty) (codes ".clang-format")))
            config_unstaged)
          _ h0 in
      let whole =
        demand-eq-ok (is_empty (partly_staged_of repo selected))
          (partly_staged (sorted_set (partly_staged_of repo selected))) h1 in
      (
        not-true _ (demand-eq-ok _ _ configured),
        is_empty-eq-nil (partly_staged_of repo selected) whole,
      )
    where
      not-true : (b : Bool) → not b ≡ true → b ≡ false
      not-true true e = cc
      not-true false e = refl

  unstaged_of :
      (selected : List Text) (name : Text)
      → partly_staged_of repo selected ≡ []
      → ((contains (names repo.decode repo.staged) name
            && contains (names repo.decode repo.dirty) name)
          && contains (selected ++ guarded) name)
        ≡ false
  unfolding partly_staged_of
  unstaged_of selected name h =
      ap (λ (b : Bool). b && contains (selected ++ guarded) name)
        (sym (
          contains-common_from (names repo.decode repo.staged) (names repo.decode repo.dirty) name))
      ∙ sym (
          contains-common_from
            (common (names repo.decode repo.staged) (names repo.decode repo.dirty))
            (selected ++ guarded) name)
      ∙ ap (λ (l : List Text). contains l name) h

  -- If the commit hook succeeds, then the tool accepts what the index holds of each selected file
  -- and leaves it as it is, the format configuration has no unstaged change, and none of the
  -- selected files, of the configuration, the script and the hook is both staged and changed
  -- further.
  pub main-IsStaged :
      (counts : Counts)
      → o.mode ≡ hook
      → (main repo o t).outcome ≡ ok counts
      → (p : Plan) × (selected : List Text) × (prepare repo o t ≡ ok p)
        × (select_files repo o t ≡ ok selected)
        × All
            (λ (name : Text).
              (content : Text) × (repo.index name ≡ some content)
              × (repo.format name content ≡ some content))
            p.files
        × (contains (names repo.decode repo.dirty) (codes ".clang-format") ≡ false)
        × ((name : Text)
            → ((contains (names repo.decode repo.staged) name
                  && contains (names repo.decode repo.dirty) name)
                && contains (selected ++ guarded) name)
              ≡ false)
  unfolding hook_index_changes
  main-IsStaged counts m h =
      let (p, c) = main-IsCompleted repo o t counts h in
      let v = prepare-IsPrepared repo o t p c.prepared in
      let (_, none_indexed, _) = conclude-ok o.mode p counts c.concluded in
      let (configured, whole) = check_hook-ok v.selected m v.hooked in
      let indexed =
        subst (λ (x : Mode). hook_index_changes repo x p.files ≡ ok p.index_changes) m v.indexed in
      (
        p,
        v.selected,
        c.prepared,
        v.chosen,
        find_index_changes-nil repo p.files (indexed ∙ ap ok none_indexed),
        configured,
        λ name. unstaged_of v.selected name whole,
      )
