-- ===== src/Deployment/Finish/Report.antt =====
-- What the caller of `run` in scripts/verify_deployment.py can rely on.
use hp_http_server.Common.{
  append_nil, ◌≡◌, refl, Bool, true, some, List, [], ◌∷◌, ◌++◌, if◌then◌else◌, inl, ◌⊎◌, Outcome,
  ok, err,
}
use hp_http_server.Common.Text.{Text, is_empty}
use hp_http_server.Deployment.Process.{Record, noted}
use hp_http_server.Deployment.Finish.{
  Cause, has_clean, Action, Summary, Directories, Owned, Ending, actions_of, try_all, removed_of,
  write_down, outcome_of, finish_run, last_checks, conclude_run,
}

abbrev pub IsClean : Record → Type 0
IsClean r = has_clean r.closing ≡ true

module _ {State : Type 0} (directories : Directories State) where
  try_all_grows :
      (actions : List Action) (state : State) (errors : List Text)
      → (try_all directories actions (state, errors)).1 ≡ []
      → errors ≡ []
  unfolding try_all
  try_all_grows [] state errors h = h
  try_all_grows (action ∷ actions) state errors h =
      (append_nil errors (noted (directories.call action state).1) (
        try_all_grows actions (directories.call action state).0
          (errors ++ noted (directories.call action state).1) h)).0

  write_down-original :
      (owned : Owned) (records : List Record) (summary : Summary) (acted : State × List Text)
      → (removed : Outcome Text Bool)
      → (write_down directories owned records summary acted removed).1.original_error
        ≡ summary.original_error
  write_down-original owned records summary (state, errors) (err text) = refl
  write_down-original owned records summary (state, errors) (ok removed) = refl

  -- What is left of the original error: the same text, and the errors of the end as a note.
  abbrev pub IsKept : Cause → List Text → Outcome (Cause ⊎ List Text) (Unit {0}) → Type 0
  IsKept cause errors result =
      (noted_cause : Cause) × (result ≡ err (inl noted_cause))
      × (noted_cause.text ≡ cause.text)
      × (noted_cause.notes ≡ (if is_empty errors then cause.notes else cause.notes ++ errors ∷ []))

  outcome-IsKept :
      (cause : Cause) (errors : List Text)
      → IsKept cause errors (outcome_of directories (some cause) errors)
  outcome-IsKept cause [] = (cause, refl, refl, refl)
  outcome-IsKept cause (e ∷ errors) =
      (record cause { notes = cause.notes ++ (e ∷ errors) ∷ [] }, refl, refl, refl)

  abbrev pub HasPassed : Owned → State → Ending State → Type 0
  HasPassed owned state ending =
      (ending.summary.passed ≡ true)
      × (ending.errors ≡ [])
      × ((try_all directories (actions_of directories owned) (state, [])).1 ≡ [])

  finish_run-IsKept :
      (owned : Owned) (records : List Record) (summary : Summary) (cause : Cause) (state : State)
      → let ending = finish_run directories owned records summary (some cause) state in
        IsKept cause ending.errors ending.outcome
        × (ending.summary.original_error ≡ summary.original_error)
  unfolding finish_run
  finish_run-IsKept owned records summary cause state =
      let acted = try_all directories (actions_of directories owned) (state, []) in
      let removed = removed_of directories owned acted.0 in
      (
        outcome-IsKept cause (write_down directories owned records summary acted removed).2,
        write_down-original owned records summary acted removed,
      )

  -- If the scenario raised, `run` raises this error, with its text unchanged and the errors of the
  -- end as one more note if there are any, and the summary has its text.
  pub conclude_run-IsKept :
      (cause : Cause) (negative : Bool) (owned : Owned) (records : List Record) (summary : Summary)
      → (state : State)
      → let ending = conclude_run directories (err cause) negative owned records summary state in
        IsKept cause ending.errors ending.outcome
        × (ending.summary.original_error ≡ some cause.text)
  unfolding conclude_run last_checks
  conclude_run-IsKept cause negative owned records summary state =
      finish_run-IsKept owned records (record summary { original_error = some cause.text }) cause
        state
