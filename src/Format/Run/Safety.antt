-- ===== src/Format/Run/Safety.antt =====
-- What a run may write.
use hp_http_server.Common.{
  ◌≡◌, refl, subst, false, ◌&&◌, some, List, [], All, Bool-cases, if_holds, then_holds, else_holds,
  inl, inr, Outcome, ok, err, >>=-eq-ok, ok-injective,
}
use hp_http_server.Common.Text.{Text}
use hp_http_server.Format.Paths.{Failure, usage, write_failed, Tree}
use hp_http_server.Format.Run.{
  is_hook, is_check, Options, Repository, check_tools, select_files, check_hook, validate_all,
  find_changes, hook_index_changes, apply_changes, write_changes, Plan, prepare, execute, finished,
  is_listed, cut_off, Report, main,
}
use hp_http_server.Format.Run.Writes.{
  IsAccepted, validate_all-IsAccepted, find_changes-IsChange, untouched, rewritten, Ended,
  completed, partial, write_changes-Ended,
}

module _ (repo : Repository) (o : Options) (t : Tree) where
  -- The stages before the first write, all of which succeeded.
  pub record IsPrepared (p : Plan) : Type 0 where
    pub selected : List Text
    pub tools : check_tools repo ≡ ok tt
    pub chosen : select_files repo o t ≡ ok selected
    pub hooked : check_hook repo o.mode selected ≡ ok tt
    pub accepted : All (IsAccepted t) p.files
    pub validated : validate_all t selected ≡ ok p.files
    pub changed : find_changes repo t p.files ≡ ok p.changes
    pub indexed : hook_index_changes repo o.mode p.files ≡ ok p.index_changes

  pub prepare-IsPrepared : (p : Plan) → prepare repo o t ≡ ok p → IsPrepared p
  unfolding prepare
  prepare-IsPrepared p h =
      let (_, tools, h1) = >>=-eq-ok (check_tools repo) _ h in
      let (selected, chosen, h2) = >>=-eq-ok (select_files repo o t) _ h1 in
      let (_, hooked, h3) = >>=-eq-ok (check_hook repo o.mode selected) _ h2 in
      let (files, validated, h4) = >>=-eq-ok (validate_all t selected) _ h3 in
      let (changes, changed, h5) = >>=-eq-ok (find_changes repo t files) _ h4 in
      let (index_changes, indexed, h6) = >>=-eq-ok (hook_index_changes repo o.mode files) _ h5 in
      subst IsPrepared (ok-injective h6) (record {
        selected = selected;
        tools = tools;
        chosen = chosen;
        hooked = hooked;
        accepted = validate_all-IsAccepted t selected files validated;
        validated = validated;
        changed = changed;
        indexed = indexed;
      })

  -- A name after a run: as before; rewritten by a run that is no check; or cut off by a write of such a run
  -- that failed, which is what the run reports.
  pub data Effect (r : Report) (name : Text) : Type 0 where
    kept : r.tree.content name ≡ t.content name → Effect r name
    formatted :
        (before after : Text)
        → is_check o.mode ≡ false
        → IsAccepted t name
        → t.content name ≡ some before
        → repo.format name before ≡ some after
        → r.tree.content name ≡ some after
        → Effect r name
    broken :
        (before after left : Text)
        → is_check o.mode ≡ false
        → IsAccepted t name
        → t.content name ≡ some before
        → repo.format name before ≡ some after
        → repo.write_bytes name after ≡ cut_off left
        → r.tree.content name ≡ some left
        → r.outcome ≡ err write_failed
        → Effect r name

  written-Effect :
      (p : Plan) (u : Tree) (result : Outcome Failure (Unit {0})) (name : Text)
      → is_check o.mode ≡ false
      → Ended repo t (u, result) name
      → Effect (finished o.mode p (u, result)) name
  written-Effect p u (err e) name writing (completed (untouched f)) = kept f
  written-Effect p u (err e) name writing (completed (rewritten before after a s g f)) =
      formatted before after writing a s g f
  written-Effect p u (err e) name writing (partial before after left a s g w f failed) =
      broken before after left writing a s g w f (cc failed)
  written-Effect p u (ok tt) name writing (completed (untouched f)) = kept f
  written-Effect p u (ok tt) name writing (completed (rewritten before after a s g f)) =
      formatted before after writing a s g f
  written-Effect p u (ok tt) name writing (partial before after left a s g w f failed) =
      absurd (cc failed)

  checked-Effect : (p : Plan) (name : Text) → Effect (finished o.mode p (t, ok tt)) name
  checked-Effect p name = kept refl

  apply_changes-Effect :
      (p : Plan) (name : Text)
      → IsPrepared p
      → Effect (finished o.mode p (apply_changes repo o.mode p.changes t)) name
  unfolding apply_changes
  apply_changes-Effect p name v = elim (Bool-cases (is_check o.mode)) [
    | inl checking ↦
        then_holds (λ (r : Tree × Outcome Failure (Unit {0})). Effect (finished o.mode p r) name)
          (is_check o.mode) (t, ok tt) (write_changes repo p.changes t) checking
          (checked-Effect p name)
    | inr writing ↦
        else_holds (λ (r : Tree × Outcome Failure (Unit {0})). Effect (finished o.mode p r) name)
          (is_check o.mode) (t, ok tt) (write_changes repo p.changes t) writing
          (written-Effect p (write_changes repo p.changes t).0 (write_changes repo p.changes t).1
            name writing
            (write_changes-Ended repo t p.changes t name
              (find_changes-IsChange repo t p.files p.changes v.accepted v.changed)
              (untouched refl)))
  ]

  execute-Effect :
      (found : Outcome Failure Plan) (name : Text)
      → prepare repo o t ≡ found
      → Effect (execute repo o.mode t found) name
  unfolding execute
  execute-Effect (err e) name h = kept refl
  execute-Effect (ok p) name h = apply_changes-Effect p name (prepare-IsPrepared p h)

  -- For every run, whatever its outcome, each name of the work tree holds what it held; or the run was
  -- no check, `validate_path` accepts the name as it stands, a regular file was there, and either it
  -- now holds what the tool has made of that file's content, or the write of that content was cut
  -- off, the name holds what the write left, and the run reports that a write failed.
  pub main-Effect : (name : Text) → Effect (main repo o t) name
  unfolding main
  main-Effect name =
      if_holds (λ (r : Report). Effect r name) (is_hook o.mode && is_listed o.manifest)
        (record { tree = t; printed = []; outcome = err usage })
        (execute repo o.mode t (prepare repo o t)) (kept refl)
        (execute-Effect (prepare repo o t) name refl)
