-- ===== src/Demo/Demonstrate.antt =====
-- `with DemoServer(...)` and the end of `demonstrate` in scripts/demo_task_application.py. What the body
-- of a `with` and the scenario come to is given; the requests of the scenario are calls of `exchange`.
use hp_http_server.Common.{
  ℕ, ◌≡◌, ◌≢◌, refl, ap, sym, ◌∙◌, Bool, true, false, Option, none, some, List, [], ◌∷◌, ◌⊎◌, inl,
  inr, if◌then◌else◌, append_nil, Outcome, ok, err, ok-injective,
}
use hp_http_server.Common.Text.{Text, codes, is_empty}
use hp_http_server.Demo.Finalize.{
  ask_removed, Raised, Summary, Output, Cause, Ending, noted, sum_up, finalize_output,
}
use hp_http_server.Demo.Finalize.Report.{
  IsTold, errors_of, IsReported, removal_of, finalize_output-IsReported,
}
use hp_http_server.Demo.Server.{
  Platform, Server, Error, Failure, original, start_server, exit_server,
}
use hp_http_server.Demo.Server.Ending.{
  start_calls, IsFinal, IsStarted, start_server-IsStarted, cleanup-IsFinal,
}

module _ {State : Type 0} (platform : Platform State) where
  abbrev pub Body : Type 0
  Body = Option ℕ → State → State × Outcome Error (Unit {0})

  -- `__exit__` after the body.
  abbrev pub leave :
      Server State → State × Outcome Error (Unit {0}) → Server State × Outcome Failure (Unit {0})
  leave s (system, ok u) = exit_server platform none (record s { system = system })
  leave s (system, err error) = exit_server platform (some error) (record s { system = system })

  abbrev pub entered :
      Body → Server State × Outcome Error (Unit {0}) → Server State × Outcome Failure (Unit {0})
  entered body (s, err error) = (s, err (original error))
  entered body (s, ok u) = leave s (body s.port s.system)

  -- `with DemoServer(...) as server: body`
  unfoldable pub with_server : List Text → Body → State → Server State × Outcome Failure (Unit {0})
  unfolding start_server exit_server
  with_server command body system = entered body (start_server platform command system)

  abbrev pub IsClosed : Server State × Outcome Failure (Unit {0}) → Type 0
  IsClosed (s, result) = (error : Option Text) × IsFinal platform error s

  exit_server-IsClosed :
      (error : Option Error) (s : Server State)
      → s.cleaned ≡ false
      → IsClosed (exit_server platform error s)
  unfolding exit_server
  exit_server-IsClosed none s first =
      (s.original_error, cleanup-IsFinal platform s.original_error s first refl)
  exit_server-IsClosed (some error) s first = (
    some error.text,
    cleanup-IsFinal platform (some error.text) (record s { original_error = some error.text }) first
        refl,
  )

  leave-IsClosed :
      (s : Server State) (came : State × Outcome Error (Unit {0}))
      → s.cleaned ≡ false
      → IsClosed (leave s came)
  leave-IsClosed s (system, ok u) first =
      exit_server-IsClosed none (record s { system = system }) first
  leave-IsClosed s (system, err error) first =
      exit_server-IsClosed (some error) (record s { system = system }) first

  entered-IsClosed :
      (body : Body) (calls : Outcome Text ℕ) (started : Server State × Outcome Error (Unit {0}))
      → IsStarted platform calls started
      → IsClosed (entered body started)
  entered-IsClosed body calls (s, err error) (why, final, note) = (some error.text, final)
  entered-IsClosed body calls (s, ok u) (process, reader, first, made, port) =
      leave-IsClosed s (body s.port s.system) first

  -- However the construction and the body of `with DemoServer(...)` end, the server it leaves is cleaned up
  -- and has its record, so the `server.record` that the summary takes is there.
  pub with_server-IsClosed :
      (command : List Text) (body : Body) (system : State)
      → IsClosed (with_server command body system)
  unfolding with_server
  with_server-IsClosed command body system =
      entered-IsClosed body (start_calls platform command system)
        (start_server platform command system) (start_server-IsStarted platform command system)

module _ {State : Type 0} (output : Output State) where
  -- The original error after the notes that `finalize_output` added.
  abbrev pub cause_left : Cause → Option Cause → Cause
  cause_left cause none = cause
  cause_left cause (some with_notes) = with_notes

  abbrev pub returned : Outcome Raised (Unit {0}) → Summary → Outcome (Cause ⊎ Raised) Summary
  returned (err raised) summary = err (inr raised)
  returned (ok u) summary = ok summary

  abbrev pub raised_on :
      Cause → Option Cause → Outcome Raised (Unit {0}) → Outcome (Cause ⊎ Raised) Summary
  raised_on cause left (err raised) = err (inr raised)
  raised_on cause left (ok u) = err (inl (cause_left cause left))

  -- The end of `demonstrate`, from what its scenario came to.
  unfoldable pub conclude_demo :
      Outcome Cause (Unit {0}) → Bool → Summary → State → Outcome (Cause ⊎ Raised) Summary
  unfolding finalize_output
  conclude_demo (ok u) has_root summary state =
      let ending = finalize_output output has_root (record summary { passed = true }) none state in
      returned ending.outcome ending.summary
  conclude_demo (err cause) has_root summary state =
      let blamed : Summary = record summary { original_error = some cause.text } in
      let ending = finalize_output output has_root blamed (some cause) state in
      raised_on cause ending.original_error ending.outcome

  told_none :
      (ending : Ending State) (errors : List Text)
      → IsTold none ending errors
      → ending.outcome ≡ ok tt
      → errors ≡ []
  told_none ending [] told h = refl
  told_none ending (e ∷ errors) (raised, kept) h = cc (raised, h)

  reported_none :
      (has_root : Bool) (summary : Summary) (state : State) (answer : Outcome Text Bool)
      (ending : Ending State)
      → IsReported output has_root summary none state answer ending
      → ending.outcome ≡ ok tt
      → (removed : Bool) × (answer ≡ ok removed)
        × (errors_of output has_root removed summary state ≡ [])
        × (ending.summary.passed ≡ summary.passed)
  reported_none has_root summary state (err text) ending (raised, kept, same, left) h =
      absurd (cc (raised, h))
  reported_none has_root summary state (ok removed) ending (told, errors, passed, set) h =
      let none_left = told_none ending (errors_of output has_root removed summary state) told h in
      let acted = removal_of output has_root state in
      let (unremoved, unwritten) =
        append_nil acted.1
          (noted (codes "summary write: ")
            (output.write_summary (sum_up output removed acted.1 summary) acted.0).1)
          none_left in
      (
        removed,
        refl,
        none_left,
        passed ∙ ap (λ (e : List Text). if is_empty e then summary.passed else false) unremoved,
      )

  returned_sound :
      (result : Outcome Raised (Unit {0})) (summary left : Summary)
      → returned result summary ≡ ok left
      → (result ≡ ok tt) × (summary ≡ left)
  returned_sound (err raised) summary left h = cc h
  returned_sound (ok u) summary left h = (refl, ok-injective h)

  not_returned :
      (cause : Cause) (kept : Option Cause) (result : Outcome Raised (Unit {0})) (left : Summary)
      → raised_on cause kept result ≢ ok left
  not_returned cause kept (err raised) left h = cc h
  not_returned cause kept (ok u) left h = cc h

  -- If `demonstrate` returns, its scenario came to the end without an error, the summary it returns says
  -- passed, the question whether the root is there was answered, and neither the removal of the root nor
  -- the write of the summary raised.
  pub conclude_demo-HasPassed :
      (scenario : Outcome Cause (Unit {0})) (has_root : Bool) (summary : Summary) (state : State)
      → (left : Summary) → conclude_demo scenario has_root summary state ≡ ok left
      → (scenario ≡ ok tt)
        × (left.passed ≡ true)
        × ((removed : Bool) × (ask_removed output has_root (removal_of output has_root state).0
              ≡ ok removed)
            × (errors_of output has_root removed (record summary { passed = true }) state ≡ []))
  unfolding conclude_demo
  conclude_demo-HasPassed (ok u) has_root summary state left h =
      let set : Summary = record summary { passed = true } in
      let ending = finalize_output output has_root set none state in
      let (done, same) = returned_sound ending.outcome ending.summary left h in
      let (removed, answered, none_left, passed) =
        reported_none has_root set state
          (ask_removed output has_root (removal_of output has_root state).0) ending
          (finalize_output-IsReported output has_root set none state) done in
      (refl, ap (λ (s : Summary). s.passed) (sym same) ∙ passed, (removed, answered, none_left))
  conclude_demo-HasPassed (err cause) has_root summary state left h =
      let blamed : Summary = record summary { original_error = some cause.text } in
      let ending = finalize_output output has_root blamed (some cause) state in
      absurd (not_returned cause ending.original_error ending.outcome left h)
