-- ===== src/Deployment/Process/Ending.antt =====
-- How the error path of ServerProcess in scripts/verify_deployment.py ends: a cleanup after an error.
use hp_http_server.Common.{
  ◌≡◌, refl, ap, true, false, Option, none, some, List, [], ◌∷◌, ◌++◌, if◌then◌else◌, if_holds,
  else_holds, Outcome, ok, err,
}
use hp_http_server.Common.Text.{Text}
use hp_http_server.Deployment.Process.{
  Stream, stdout, stderr, terminate, wait, join, close, Platform, Closing, Record, Process, Error,
  Failure, carried, is_clean, attempt, after_wait, stop_running, stop_process, join_readers,
  close_pipes, write_streams, update_record, closing_of, clean_up, report, cleanup, note_original,
  last_error, raised_again, fail_with, exit_process,
}

-- The error goes on, with the record as a note exactly if the record is not clean, and the record has it.
abbrev pub IsFailed : {State : Type 0} → Error → Process State × Outcome Failure (Unit {0}) → Type 0
IsFailed error (p, result) =
    (p.cleaned ≡ true)
    × (p.made.original_error ≡ some error.text)
    × ((c : Closing) × (p.made.closing ≡ some c)
        × (result
            ≡ err (
                carried (
                  if is_clean c
                  then error
                  else record error { notes = error.notes ++ p.made ∷ [] }))))

module _ {State : Type 0} (platform : Platform State) where
  module _ (text : Text) where
    abbrev IsBlamed : Process State → Type 0
    IsBlamed p = (p.cleaned ≡ true) × (p.made.original_error ≡ some text)

    after_wait-IsBlamed :
        (raised : Option Text) (p : Process State)
        → IsBlamed p
        → IsBlamed (after_wait platform raised p)
    unfolding after_wait attempt
    after_wait-IsBlamed none p h = h
    after_wait-IsBlamed (some error) p h = h

    stop_running-IsBlamed : (p : Process State) → IsBlamed p → IsBlamed (stop_running platform p)
    unfolding stop_running attempt
    stop_running-IsBlamed p h =
        let terminated = attempt platform terminate p in
        after_wait-IsBlamed (platform.call wait terminated.system).1
          (attempt platform wait terminated) h

    stop_process-IsBlamed : (p : Process State) → IsBlamed p → IsBlamed (stop_process platform p)
    unfolding stop_process attempt
    stop_process-IsBlamed p h =
        let polled : Process State = record p { system = (platform.poll p.system).0 } in
        let stopped = if (platform.poll p.system).1 then stop_running platform polled else polled in
        if_holds IsBlamed p.has_process (attempt platform wait stopped) p
          (if_holds IsBlamed (platform.poll p.system).1 (stop_running platform polled) polled
            (stop_running-IsBlamed polled h) h)
          h

    join_readers-IsBlamed :
        (readers : List Stream) (p : Process State)
        → IsBlamed p
        → IsBlamed (join_readers platform readers p)
    unfolding join_readers attempt
    join_readers-IsBlamed [] p h = h
    join_readers-IsBlamed (reader ∷ readers) p h =
        join_readers-IsBlamed readers (attempt platform (join reader) p) h

    close_pipes-IsBlamed : (p : Process State) → IsBlamed p → IsBlamed (close_pipes platform p)
    unfolding close_pipes attempt
    close_pipes-IsBlamed p h =
        if_holds IsBlamed p.has_process
          (attempt platform (close stderr) (attempt platform (close stdout) p)) p h h

    clean_up-IsBlamed :
        (p : Process State)
        → p.made.original_error ≡ some text
        → IsBlamed (clean_up platform p)
          × ((c : Closing) × ((clean_up platform p).made.closing ≡ some c))
    unfolding clean_up write_streams update_record attempt
    clean_up-IsBlamed p h =
        let stopped = stop_process platform (record p { cleaned = true }) in
        let joined = join_readers platform p.readers stopped in
        (
          close_pipes-IsBlamed joined (
              join_readers-IsBlamed p.readers stopped
                (stop_process-IsBlamed (record p { cleaned = true }) (refl, h))),
          (closing_of platform (write_streams platform (close_pipes platform joined)), refl),
        )

  abbrev told_error : Error → Record → Option Closing → Outcome Failure (Unit {0})
  told_error error r found =
      err (carried (last_error platform error (report platform (some error) r found).0))

  noted_error :
      (error : Error) (r : Record) (found : Option Closing) (c : Closing)
      → found ≡ some c
      → ◌≡◌ {A = Outcome Failure (Unit {0})}
          (err (carried (last_error platform error (report platform (some error) r found).0)))
          (err (
            carried (if is_clean c then error else record error { notes = error.notes ++ r ∷ [] })))
  noted_error error r found c e = ap (λ (x : Option Closing). told_error error r x) e

  pub fail_with-IsFailed :
      (error : Error) (p : Process State)
      → p.cleaned ≡ false
      → IsFailed error (fail_with platform error p)
  unfolding fail_with cleanup
  fail_with-IsFailed error p first =
      let blamed = note_original platform error.text p in
      let after = clean_up platform blamed in
      let told = report platform (some error) after.made after.made.closing in
      let ((cleaned, kept), (c, e)) = clean_up-IsBlamed error.text blamed refl in
      else_holds
        (λ (result : Process State × Option Error × Outcome Failure (Unit {0})).
          IsFailed error (raised_again platform error result))
        p.cleaned (blamed, some error, ok tt) (after, told.0, told.1) first
        (cleaned, kept, (c, e, noted_error error after.made after.made.closing c e))

  -- Leaving the context of a process on which no cleanup ran with an error of the body raises this error
  -- again, with the record as one more note exactly if the record is not clean, and the record has its text.
  pub exit_process-IsFailed :
      (error : Error) (p : Process State)
      → p.cleaned ≡ false
      → IsFailed error (exit_process platform (some error) p)
  unfolding exit_process
  exit_process-IsFailed error p first = fail_with-IsFailed error p first
