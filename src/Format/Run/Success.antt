-- ===== src/Format/Run/Success.antt =====
-- Runs that succeed: every selected file is formatted, in the work tree and, for the commit hook,
-- in the index.
use hp_http_server.Common.{
  ◌≡◌, refl, ◌∙◌, sym, ap, subst, true, not, ◌&&◌, ◌||◌, some, List, [], ◌∷◌, length, All, All-mono,
  Bool-cases, inl, inr, Outcome, ok, err, demand, >>=-eq-ok, demand-eq-ok, ok-injective,
}
use hp_http_server.Common.Text.{Text, is_empty}
use hp_http_server.Format.Paths.{Failure, differences, index_differences, Tree}
use hp_http_server.Format.Run.{
  Mode, write, is_hook, is_check, Options, Repository, apply_changes, write_changes, Plan, Counts,
  conclude, prepare, execute, finished, is_listed, main,
}
use hp_http_server.Format.Run.Writes.{
  find_changes-IsChange, IsPlanned, find_changes-IsPlanned, Written, untouched, rewritten,
  write_changes-Written, write_changes-ok,
}
use hp_http_server.Format.Run.Safety.{prepare-IsPrepared}

pub is_empty-eq-nil {ℓ} : {A : Type ℓ} (l : List A) → is_empty l ≡ true → l ≡ []
is_empty-eq-nil [] h = refl
is_empty-eq-nil (x ∷ l) h = cc

pub conclude-ok :
    (mode : Mode) (p : Plan) (counts : Counts)
    → conclude mode p ≡ ok counts
    → ((is_empty p.changes || not (is_hook mode || is_check mode)) ≡ true)
      × (p.index_changes ≡ [])
      × ((length p.files, length p.changes) ≡ counts)
unfolding conclude
conclude-ok mode p counts h =
    let (_, same, h1) =
      >>=-eq-ok (demand (is_empty p.changes || not (is_hook mode || is_check mode)) differences) _
        h in
    let (_, indexed, h2) =
      >>=-eq-ok (demand (is_empty p.index_changes) (index_differences p.index_changes)) _ h1 in
    (
      demand-eq-ok _ _ same,
      is_empty-eq-nil p.index_changes (demand-eq-ok _ _ indexed),
      ok-injective h2,
    )

module _ (repo : Repository) (o : Options) (t : Tree) where
  -- A run with an outcome went through all its stages.
  pub record IsCompleted (counts : Counts) (p : Plan) : Type 0 where
    pub prepared : prepare repo o t ≡ ok p
    pub written : (apply_changes repo o.mode p.changes t).1 ≡ ok tt
    pub left : (main repo o t).tree ≡ (apply_changes repo o.mode p.changes t).0
    pub concluded : conclude o.mode p ≡ ok counts

  finished-ok :
      (p : Plan) (counts : Counts) (r : Tree × Outcome Failure (Unit {0}))
      → (finished o.mode p r).outcome ≡ ok counts
      → (r.1 ≡ ok tt) × (conclude o.mode p ≡ ok counts) × ((finished o.mode p r).tree ≡ r.0)
  finished-ok p counts (u, err e) h = cc
  finished-ok p counts (u, ok tt) h = (refl, h, refl)

  execute-ok :
      (found : Outcome Failure Plan) (counts : Counts)
      → (execute repo o.mode t found).outcome ≡ ok counts
      → (p : Plan) × (found ≡ ok p)
        × ((apply_changes repo o.mode p.changes t).1 ≡ ok tt)
        × (conclude o.mode p ≡ ok counts)
        × ((execute repo o.mode t found).tree ≡ (apply_changes repo o.mode p.changes t).0)
  unfolding execute
  execute-ok (err e) counts h = cc
  execute-ok (ok p) counts h =
      let (w, c, l) = finished-ok p counts (apply_changes repo o.mode p.changes t) h in
      (p, refl, w, c, l)

  pub main-IsCompleted :
      (counts : Counts) → (main repo o t).outcome ≡ ok counts → (p : Plan) × IsCompleted counts p
  unfolding main
  main-IsCompleted counts h = elim (Bool-cases (is_hook o.mode && is_listed o.manifest)) [
    | inl misused ↦ cc (rw misused at h)
    | inr fine ↦
        let (p, prepared, w, c, l) = execute-ok (prepare repo o t) counts (rw fine at h) in
        (p, record { prepared = prepared; written = w; left = rw fine l; concluded = c })
  ]

  -- A file that held a content, and for which the tree now holds what the tool makes of it.
  pub record IsFormatted (u : Tree) (name : Text) : Type 0 where
    pub before : Text
    pub after : Text
    pub stored : t.content name ≡ some before
    pub formatted : repo.format name before ≡ some after
    pub result : u.content name ≡ some after

  planned-IsFormatted :
      (u : Tree) (name : Text)
      → IsPlanned repo t u name
      → Written repo t u name
      → IsFormatted u name
  planned-IsFormatted u name p (untouched e) = record {
    before = p.before;
    after = p.after;
    stored = p.stored;
    formatted = p.formatted;
    result = elim p.settled [ inl same ↦ e ∙ p.stored ∙ ap some same | inr held ↦ held ];
  }
  planned-IsFormatted u name p (rewritten before after a s f e) = record {
    before = before;
    after = after;
    stored = s;
    formatted = f;
    result = e;
  }

  planned-All :
      (u : Tree) (files : List Text)
      → ((name : Text) → Written repo t u name)
      → All (IsPlanned repo t u) files
      → All (IsFormatted u) files
  planned-All u files w =
      All-mono (IsPlanned repo t u) (IsFormatted u) files
        (λ name p. planned-IsFormatted u name p (w name))

  pub apply_changes-writes :
      (changes : List (Text × Text))
      → o.mode ≡ write
      → apply_changes repo o.mode changes t ≡ write_changes repo changes t
  unfolding apply_changes
  apply_changes-writes changes m = rw m refl

  -- If a run that is neither a check nor the hook succeeds, then it has selected files, reports
  -- their number, and for each of them the work tree now holds what the tool makes of the content
  -- that was there.
  pub main-IsFormatted :
      (counts : Counts)
      → o.mode ≡ write
      → (main repo o t).outcome ≡ ok counts
      → (p : Plan) × (prepare repo o t ≡ ok p)
        × ((length p.files, length p.changes) ≡ counts)
        × All (IsFormatted (main repo o t).tree) p.files
  main-IsFormatted counts m h =
      let (p, c) = main-IsCompleted counts h in
      let v = prepare-IsPrepared repo o t p c.prepared in
      let (_, _, numbers) = conclude-ok o.mode p counts c.concluded in
      let same = apply_changes-writes p.changes m in
      let u = (write_changes repo p.changes t).0 in
      let changes = find_changes-IsChange repo t p.files p.changes v.accepted v.changed in
      let written = ap (λ (r : Tree × Outcome Failure (Unit {0})). r.1) (sym same) ∙ c.written in
      let held = write_changes-ok repo t p.changes t changes written in
      (
        p,
        c.prepared,
        numbers,
        subst (λ (x : Tree). All (IsFormatted x) p.files)
            (sym (c.left ∙ ap (λ (r : Tree × Outcome Failure (Unit {0})). r.0) same))
            (planned-All u p.files
              (λ name.
                write_changes-Written repo t p.changes t name changes (untouched refl) written)
              (find_changes-IsPlanned repo t u p.files p.changes v.changed held)),
      )
