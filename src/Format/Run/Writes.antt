-- ===== src/Format/Run/Writes.antt =====
-- The stages of `main` one by one: what was validated, what changes were found, and what the
-- writes leave.
use hp_http_server.Common.{
  ◌≡◌, ◌⊎◌, refl, ◌∙◌, sym, ap, subst, Bool, true, false, some, List, [], ◌∷◌, All, if◌then◌else◌,
  Bool-cases, inl, inr, Outcome, ok, err, >>=-eq-ok, ok-injective, required-eq-ok,
}
use hp_http_server.Common.Text.{Text, text_eq, text_eq_iff, text_eq_refl}
use hp_http_server.Format.Paths.{
  Failure, write_failed, tool_failed, not_a_file, Tree, validate_path,
}
use hp_http_server.Format.Paths.Normal.{validate_path_idem}
use hp_http_server.Format.Run.{
  Writing, whole, refused, cut_off, Repository, validate_all, read_file, run_tool, find_changes,
  put_content, write_changes,
}

-- A name that the run goes on with: it is accepted as it stands.
abbrev pub IsAccepted : Tree → Text → Type 0
IsAccepted t name = validate_path t name ≡ ok name

pub validate_all-IsAccepted :
    (t : Tree) (found valid : List Text)
    → validate_all t found ≡ ok valid
    → All (IsAccepted t) valid
unfolding validate_all
validate_all-IsAccepted t [] valid h = subst (All (IsAccepted t)) (ok-injective h) tt
validate_all-IsAccepted t (name ∷ found) valid h =
    let (one, this, h1) = >>=-eq-ok (validate_path t name) _ h in
    let (more, rest, h2) = >>=-eq-ok (validate_all t found) _ h1 in
    subst (All (IsAccepted t)) (ok-injective h2)
      (validate_path_idem t name one this, validate_all-IsAccepted t found more rest)

-- Accepted names are accepted again, all at once.
pub validate_all_idem :
    (t : Tree) (valid : List Text) → All (IsAccepted t) valid → validate_all t valid ≡ ok valid
unfolding validate_all
validate_all_idem t [] h = refl
validate_all_idem t (name ∷ valid) (h, hs) = rw (h, validate_all_idem t valid hs) refl

pub Writing-cases :
    (w : Writing) → (w ≡ whole) ⊎ ((w ≡ refused) ⊎ ((left : Text) × (w ≡ cut_off left)))
Writing-cases whole = inl refl
Writing-cases refused = inr (inl refl)
Writing-cases (cut_off left) = inr (inr (left, refl))

module _ (repo : Repository) where
  -- A change is of an accepted file, to what the tool makes of its content.
  pub record IsChange (t : Tree) (c : Text × Text) : Type 0 where
    pub before : Text
    pub accepted : IsAccepted t c.0
    pub stored : t.content c.0 ≡ some before
    pub formatted : repo.format c.0 before ≡ some c.1

  -- A file of the run: the tool accepts its content, and either leaves it alone, or the tree `u`
  -- holds what the tool makes of it.
  pub record IsPlanned (t u : Tree) (name : Text) : Type 0 where
    pub before : Text
    pub after : Text
    pub stored : t.content name ≡ some before
    pub formatted : repo.format name before ≡ some after
    pub settled : (before ≡ after) ⊎ (u.content name ≡ some after)

  abbrev pub Holds : Tree → Text × Text → Type 0
  Holds u c = u.content c.0 ≡ some c.1

  pub find_changes-IsChange :
      (t : Tree) (files : List Text) (changes : List (Text × Text))
      → All (IsAccepted t) files
      → find_changes repo t files ≡ ok changes
      → All (IsChange t) changes
  unfolding find_changes
  find_changes-IsChange t [] changes a h = subst (All (IsChange t)) (ok-injective h) tt
  find_changes-IsChange t (name ∷ files) changes (a, as') h =
      let (before, stored, h1) = >>=-eq-ok (read_file t name) _ h in
      let (after, tool, h2) = >>=-eq-ok (run_tool repo name before) _ h1 in
      let (rest, more, h3) = >>=-eq-ok (find_changes repo t files) _ h2 in
      let cs = find_changes-IsChange t files rest as' more in
      let change : IsChange t (name, after) = record {
        before = before;
        accepted = a;
        stored = required-eq-ok (t.content name) (not_a_file name) stored;
        formatted = required-eq-ok (repo.format name before) tool_failed tool;
      } in
      subst (All (IsChange t)) (ok-injective h3)
        (add (name, after) rest (text_eq before after) change cs)
    where
      add :
          (c : Text × Text) (rest : List (Text × Text)) (b : Bool)
          → IsChange t c
          → All (IsChange t) rest
          → All (IsChange t) (if b then rest else c ∷ rest)
      add c rest true change cs = cs
      add c rest false change cs = (change, cs)

  pub find_changes-IsPlanned :
      (t u : Tree) (files : List Text) (changes : List (Text × Text))
      → find_changes repo t files ≡ ok changes
      → All (Holds u) changes
      → All (IsPlanned t u) files
  unfolding find_changes
  find_changes-IsPlanned t u [] changes h held = tt
  find_changes-IsPlanned t u (name ∷ files) changes h held =
      let (before, stored, h1) = >>=-eq-ok (read_file t name) _ h in
      let (after, tool, h2) = >>=-eq-ok (run_tool repo name before) _ h1 in
      let (rest, more, h3) = >>=-eq-ok (find_changes repo t files) _ h2 in
      let (settled, held') =
        split rest before after (text_eq before after) refl
          (subst (All (Holds u)) (sym (ok-injective h3)) held) in
      (
        record {
          before = before;
          after = after;
          stored = required-eq-ok (t.content name) (not_a_file name) stored;
          formatted = required-eq-ok (repo.format name before) tool_failed tool;
          settled = settled;
        },
        find_changes-IsPlanned t u files rest more held',
      )
    where
      split :
          (rest : List (Text × Text)) (before after : Text) (b : Bool)
          → text_eq before after ≡ b
          → All (Holds u) (if b then rest else (name, after) ∷ rest)
          → ((before ≡ after) ⊎ (u.content name ≡ some after)) × All (Holds u) rest
      split rest before after true e held = (inl ((text_eq_iff before after).0 e), held)
      split rest before after false e held = (inr held.0, held.1)

  -- One name after some writes: it is as before, or it holds what the tool made of it.
  pub data Written (t u : Tree) (name : Text) : Type 0 where
    untouched : u.content name ≡ t.content name → Written t u name
    rewritten :
        (before after : Text)
        → IsAccepted t name
        → t.content name ≡ some before
        → repo.format name before ≡ some after
        → u.content name ≡ some after
        → Written t u name

  put_content_same :
      (name content : Text) (u : Tree) → (put_content name content u).content name ≡ some content
  put_content_same name content u = rw (text_eq_refl name) refl

  put_content_other :
      (name content other : Text) (u : Tree)
      → text_eq other name ≡ false
      → (put_content name content u).content other ≡ u.content other
  put_content_other name content other u differs = rw differs refl

  put_content-Written :
      (t u : Tree) (c : Text × Text) (name : Text)
      → IsChange t c
      → Written t u name
      → Written t (put_content c.0 c.1 u) name
  put_content-Written t u c name change w = elim (Bool-cases (text_eq name c.0)) [
    | inl same ↦
        subst (λ (x : Text). Written t (put_content c.0 c.1 u) x)
          (sym ((text_eq_iff name c.0).0 same))
          (rewritten change.before c.1 change.accepted change.stored change.formatted
            (put_content_same c.0 c.1 u))
    | inr differs ↦ carry w (put_content_other c.0 c.1 name u differs)
  ]
    where
      carry : {v : Tree} → Written t u name → v.content name ≡ u.content name → Written t v name
      carry (untouched e) f = untouched (f ∙ e)
      carry (rewritten before after a s g e) f = rewritten before after a s g (f ∙ e)

  -- One name after the writes of a run: no write of it failed, or the last write was of it, cut it off and
  -- ended the run.
  pub data Ended (t : Tree) (r : Tree × Outcome Failure (Unit {0})) (name : Text) : Type 0 where
    completed : Written t r.0 name → Ended t r name
    partial :
        (before after left : Text)
        → IsAccepted t name
        → t.content name ≡ some before
        → repo.format name before ≡ some after
        → repo.write_bytes name after ≡ cut_off left
        → r.0.content name ≡ some left
        → r.1 ≡ err write_failed
        → Ended t r name

  put_content-Ended :
      (t u : Tree) (c : Text × Text) (left name : Text)
      → IsChange t c
      → repo.write_bytes c.0 c.1 ≡ cut_off left
      → Written t u name
      → Ended t (put_content c.0 left u, err write_failed) name
  put_content-Ended t u c left name change e w = elim (Bool-cases (text_eq name c.0)) [
    | inl same ↦
        subst (λ (x : Text). Ended t (put_content c.0 left u, err write_failed) x)
          (sym ((text_eq_iff name c.0).0 same))
          (partial change.before c.1 left change.accepted change.stored change.formatted e
            (put_content_same c.0 left u) refl)
    | inr differs ↦ completed (carry w (put_content_other c.0 left name u differs))
  ]
    where
      carry : {v : Tree} → Written t u name → v.content name ≡ u.content name → Written t v name
      carry (untouched e) f = untouched (f ∙ e)
      carry (rewritten before after a s g e) f = rewritten before after a s g (f ∙ e)

  pub write_changes-Ended :
      (t : Tree) (changes : List (Text × Text)) (u : Tree) (name : Text)
      → All (IsChange t) changes
      → Written t u name
      → Ended t (write_changes repo changes u) name
  unfolding write_changes
  write_changes-Ended t [] u name cs w = completed w
  write_changes-Ended t ((path, after) ∷ changes) u name (c, cs) w =
      elim (Writing-cases (repo.write_bytes path after)) [
        | inl written ↦ rw written (
            write_changes-Ended t changes (put_content path after u) name cs
              (put_content-Written t u (path, after) name c w))
        | inr (inl denied) ↦ rw denied (completed w)
        | inr (inr (left, broken)) ↦
            rw broken (put_content-Ended t u (path, after) left name c broken w)
      ]

  pub write_changes-Written :
      (t : Tree) (changes : List (Text × Text)) (u : Tree) (name : Text)
      → All (IsChange t) changes
      → Written t u name
      → (write_changes repo changes u).1 ≡ ok tt
      → Written t (write_changes repo changes u).0 name
  write_changes-Written t changes u name cs w h =
      unbroken (write_changes-Ended t changes u name cs w)
    where
      unbroken :
          Ended t (write_changes repo changes u) name
          → Written t (write_changes repo changes u).0 name
      unbroken (completed v) = v
      unbroken (partial before after left a s f e g failed) = absurd (cc (failed, h))

  -- Two changes of one file are to the same content.
  agree :
      (t : Tree) (c d : Text × Text) → IsChange t c → IsChange t d → d.0 ≡ c.0 → some c.1 ≡ some d.1
  agree t c d x y same = cc (x.stored, y.stored, x.formatted, y.formatted, same)

  -- A later write of a run that wrote everything keeps an earlier one.
  write_changes-Holds :
      (t : Tree) (changes : List (Text × Text)) (u : Tree) (d : Text × Text)
      → All (IsChange t) changes
      → IsChange t d
      → Holds u d
      → (write_changes repo changes u).1 ≡ ok tt
      → Holds (write_changes repo changes u).0 d
  unfolding write_changes
  write_changes-Holds t [] u d cs p held h = held
  write_changes-Holds t ((path, after) ∷ changes) u d (c, cs) p held h =
      elim (Writing-cases (repo.write_bytes path after)) [
        | inl written ↦ rw written (
            write_changes-Holds t changes (put_content path after u) d cs p
              (elim (Bool-cases (text_eq d.0 path)) [
                | inl same ↦ rw same (agree t (path, after) d c p ((text_eq_iff d.0 path).0 same))
                | inr differs ↦ put_content_other path after d.0 u differs ∙ held
              ])
              (rw written at h))
        | inr (inl denied) ↦ cc (rw denied at h)
        | inr (inr (left, broken)) ↦ cc (rw broken at h)
      ]

  pub write_changes-ok :
      (t : Tree) (changes : List (Text × Text)) (u : Tree)
      → All (IsChange t) changes
      → (write_changes repo changes u).1 ≡ ok tt
      → All (Holds (write_changes repo changes u).0) changes
  unfolding write_changes
  write_changes-ok t [] u cs h = tt
  write_changes-ok t ((path, after) ∷ changes) u (c, cs) h =
      elim (Writing-cases (repo.write_bytes path after)) [
        | inl written ↦
            let rest = write_changes repo changes (put_content path after u) in
            let stepped : write_changes repo ((path, after) ∷ changes) u ≡ rest = rw written refl in
            let done = ap (λ (r : Tree × Outcome Failure (Unit {0})). r.1) (sym stepped) ∙ h in
            subst
              (λ (r : Tree × Outcome Failure (Unit {0})). All (Holds r.0) ((path, after) ∷ changes))
              (sym stepped)
              (
                write_changes-Holds t changes (put_content path after u) (path, after) cs c
                    (put_content_same path after u) done,
                write_changes-ok t changes (put_content path after u) cs done,
              )
        | inr (inl denied) ↦ cc (rw denied at h)
        | inr (inr (left, broken)) ↦ cc (rw broken at h)
      ]
