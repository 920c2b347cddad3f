-- ===== src/Demo/Finalize/Report.antt =====
-- What the caller of `finalize_output` in scripts/demo_task_application.py learns.
use hp_http_server.Common.{
  Outcome, Bool, true, ◌≡◌, refl, ap, sym, subst, false, Option, none, some, List, [], ◌∷◌, ◌++◌,
  if◌then◌else◌, ok, err,
}
use hp_http_server.Common.Text.{Text, codes, is_empty}
use hp_http_server.Demo.Finalize.{
  escaped, reported, ask_removed, after_asking, Summary, Output, Cause, Ending, noted, remove_root,
  sum_up, conclude, write_down, finalize_output,
}

-- No error: it returned, and the original error is as before. Errors without an original error: it raised
-- them all. Errors with an original error: it returned, and they are a note on that error.
abbrev pub IsTold : {State : Type 0} → Option Cause → Ending State → List Text → Type 0
IsTold original ending [] = (ending.outcome ≡ ok tt) × (ending.original_error ≡ original)
IsTold none ending (e ∷ errors) =
    (ending.outcome ≡ err (reported (e ∷ errors))) × (ending.original_error ≡ none)
IsTold (some cause) ending (e ∷ errors) =
    (ending.outcome ≡ ok tt)
    × (ending.original_error ≡ some (record cause { notes = cause.notes ++ (e ∷ errors) ∷ [] }))

module _ {State : Type 0} (output : Output State) where
  conclude-IsTold :
      (errors : List Text) (state : State) (summary : Summary) (original : Option Cause)
      → (IsTold original (conclude output errors state summary original) errors)
        × ((conclude output errors state summary original).summary ≡ summary)
  conclude-IsTold [] state summary none = ((refl, refl), refl)
  conclude-IsTold [] state summary (some cause) = ((refl, refl), refl)
  conclude-IsTold (e ∷ errors) state summary none = ((refl, refl), refl)
  conclude-IsTold (e ∷ errors) state summary (some cause) = ((refl, refl), refl)

  -- The removal, if there is a root: what it leaves, and its error.
  abbrev pub removal_of : Bool → State → State × List Text
  removal_of true state =
      ((output.rmtree state).0, noted (codes "root cleanup: ") (output.rmtree state).1)
  removal_of false state = (state, [])

  -- The errors of the removal and of the write, in this order.
  abbrev pub errors_of : Bool → Bool → Summary → State → List Text
  errors_of has_root removed summary state =
      let acted = removal_of has_root state in
      acted.1
      ++ noted (codes "summary write: ")
          (output.write_summary (sum_up output removed acted.1 summary) acted.0).1

  -- The errors that are told if the question whether the root is there was answered; an error of that
  -- question leaves in place of all others.
  abbrev pub IsReported :
      Bool → Summary → Option Cause → State → Outcome Text Bool → Ending State → Type 0
  IsReported has_root summary original state (err text) ending =
      (ending.outcome ≡ err (escaped text))
      × (ending.original_error ≡ original)
      × (ending.summary ≡ summary)
      × (ending.state ≡ (removal_of has_root state).0)
  IsReported has_root summary original state (ok removed) ending =
      IsTold original ending (errors_of has_root removed summary state)
      × (ending.summary.cleanup_errors ≡ errors_of has_root removed summary state)
      × (ending.summary.passed
          ≡ (if is_empty (removal_of has_root state).1 then summary.passed else false))
      × (ending.summary.root_removed ≡ some removed)

  pub remove_root_lem :
      (has_root : Bool) (state : State)
      → remove_root output has_root state ≡ removal_of has_root state
  unfolding remove_root
  remove_root_lem true state = refl
  remove_root_lem false state = refl

  after_asking-IsReported :
      (has_root : Bool) (answer : Outcome Text Bool) (summary : Summary) (original : Option Cause)
      (state : State)
      → IsReported has_root summary original state answer
          (after_asking output answer (removal_of has_root state) summary original)
  unfolding write_down sum_up
  after_asking-IsReported has_root (err text) summary original state = (refl, refl, refl, refl)
  after_asking-IsReported has_root (ok removed) summary original state =
      let acted = removal_of has_root state in
      let summed = sum_up output removed acted.1 summary in
      let errors = errors_of has_root removed summary state in
      let (told, kept) =
        conclude-IsTold errors (output.write_summary summed acted.0).0
          (record summed { cleanup_errors = errors }) original in
      (
        told,
        ap (λ (s : Summary). s.cleanup_errors) kept,
        ap (λ (s : Summary). s.passed) kept,
        ap (λ (s : Summary). s.root_removed) kept,
      )

  -- If `root.exists()` raises, this error leaves `finalize_output`, the summary is not written, and the
  -- original error gets no note. Otherwise no error is lost: the errors are that of `shutil.rmtree`, if
  -- there is a root, and that of the write of the summary; they are in the summary it leaves, which says
  -- passed only if it said so before and the removal raised nothing; without an error it returns, with
  -- errors and no original error it raises them, and with an original error it returns and adds them to
  -- it as a note.
  pub finalize_output-IsReported :
      (has_root : Bool) (summary : Summary) (original : Option Cause) (state : State)
      → IsReported has_root summary original state
          (ask_removed output has_root (removal_of has_root state).0)
          (finalize_output output has_root summary original state)
  unfolding finalize_output
  finalize_output-IsReported has_root summary original state =
      subst
        (λ (acted : State × List Text).
          IsReported has_root summary original state
            (ask_removed output has_root (removal_of has_root state).0)
            (after_asking output (ask_removed output has_root acted.0) acted summary original))
        (sym (remove_root_lem has_root state))
        (after_asking-IsReported has_root
          (ask_removed output has_root (removal_of has_root state).0) summary original state)
