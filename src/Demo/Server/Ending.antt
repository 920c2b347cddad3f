-- ===== src/Demo/Server/Ending.antt =====
-- How the construction of DemoServer in scripts/demo_task_application.py ends, and its exit with an error.
use hp_http_server.Common.{
  ℕ, ◌≡◌, refl, true, false, ◌&&◌, Option, some, List, [], if◌then◌else◌, if_holds, then_holds,
  else_holds, Outcome, ok, err, ◌>>=◌,
}
use hp_http_server.Common.Text.{Text}
use hp_http_server.Demo.Server.{
  Record, terminate, wait, join, close, save, Response, done, timed_out, raised, Platform, Server,
  Error, Failure, original, attempt, invoke, terminate_running, after_wait, wait_ended,
  stop_process, join_reader, close_pipe, describe, save_record, finish_cleanup, cleanup, abandon,
  fresh, got_port, launched, spawned, start_server, is_clean, exit_server,
}

-- What one cleanup leaves: a record with the errors of the cleanup and the original error, and a server
-- that a further cleanup returns as it is.
abbrev pub IsFinal : {State : Type 0} → Platform State → Option Text → Server State → Type 0
IsFinal platform error s =
    (cleanup platform s ≡ s)
    × (s.cleaned ≡ true)
    × (s.original_error ≡ error)
    × ((r : Record) × (s.record_made ≡ some r)
        × (r.original_error ≡ error)
        × (r.cleanup_errors ≡ s.cleanup_errors)
        × (r.forced ≡ s.forced))

module _ {State : Type 0} (platform : Platform State) (error : Option Text) where
  abbrev IsBlamed : Server State → Type 0
  IsBlamed s = s.original_error ≡ error

  terminate_running-IsBlamed :
      (s : Server State) → IsBlamed s → IsBlamed (terminate_running platform s)
  unfolding terminate_running attempt
  terminate_running-IsBlamed s h =
      let polled : Server State = record s { system = (platform.poll s.system).0 } in
      if_holds IsBlamed (platform.poll s.system).1 (attempt platform terminate polled) polled h h

  after_wait-IsBlamed :
      (r : Response) (s : Server State) → IsBlamed s → IsBlamed (after_wait platform r s)
  unfolding after_wait attempt
  after_wait-IsBlamed done s h = h
  after_wait-IsBlamed (timed_out text) s h = h
  after_wait-IsBlamed (raised text) s h = h

  stop_process-IsBlamed : (s : Server State) → IsBlamed s → IsBlamed (stop_process platform s)
  unfolding stop_process wait_ended
  stop_process-IsBlamed s h =
      let ready = terminate_running platform s in
      if_holds IsBlamed s.has_process (wait_ended platform ready) s
        (after_wait-IsBlamed (platform.call wait ready.system).1 (invoke platform wait ready)
          (terminate_running-IsBlamed s h))
        h

  join_reader-IsBlamed : (s : Server State) → IsBlamed s → IsBlamed (join_reader platform s)
  unfolding join_reader attempt
  join_reader-IsBlamed s h =
      if_holds IsBlamed (s.has_reader && platform.has_ident s.system) (attempt platform join s) s h
        h

  close_pipe-IsBlamed : (s : Server State) → IsBlamed s → IsBlamed (close_pipe platform s)
  unfolding close_pipe attempt
  close_pipe-IsBlamed s h =
      if_holds IsBlamed (s.has_process && platform.has_stdout s.system) (attempt platform close s) s
        h h

  abbrev IsRecorded : Server State → Type 0
  IsRecorded s =
      (s.cleaned ≡ true)
      × (s.original_error ≡ error)
      × ((r : Record) × (s.record_made ≡ some r)
          × (r.original_error ≡ error)
          × (r.cleanup_errors ≡ s.cleanup_errors)
          × (r.forced ≡ s.forced))

  finish_cleanup-IsRecorded :
      (s : Server State) → IsBlamed s → IsRecorded (finish_cleanup platform s)
  unfolding finish_cleanup save_record describe attempt
  finish_cleanup-IsRecorded s h = (
    refl,
    h,
    (
      record (describe platform s) {
        cleanup_errors = (attempt platform (save (describe platform s)) s).cleanup_errors;
      },
      refl,
      h,
      refl,
      refl,
    ),
  )

  cleanup-IsRecorded :
      (s : Server State) → s.cleaned ≡ false → IsBlamed s → IsRecorded (cleanup platform s)
  unfolding cleanup
  cleanup-IsRecorded s first h =
      let closed = close_pipe platform (join_reader platform (stop_process platform s)) in
      else_holds IsRecorded s.cleaned s (finish_cleanup platform closed) first (
        finish_cleanup-IsRecorded closed (
          close_pipe-IsBlamed (join_reader platform (stop_process platform s))
            (join_reader-IsBlamed (stop_process platform s) (stop_process-IsBlamed s h))))

  cleaned_stays : (s : Server State) → s.cleaned ≡ true → cleanup platform s ≡ s
  unfolding cleanup
  cleaned_stays s h =
      then_holds (λ (x : Server State). x ≡ s) s.cleaned s
        (finish_cleanup platform
          (close_pipe platform (join_reader platform (stop_process platform s))))
        h refl

  -- The first cleanup of a server makes a record, whose errors, force and original error are the server's,
  -- an error of writing the record included, and every further cleanup changes nothing and makes no call.
  pub cleanup-IsFinal :
      (s : Server State)
      → s.cleaned ≡ false
      → s.original_error ≡ error
      → IsFinal platform error (cleanup platform s)
  cleanup-IsFinal s first h =
      let (cleaned, blamed, recorded) = cleanup-IsRecorded s first h in
      (cleaned_stays (cleanup platform s) cleaned, cleaned, blamed, recorded)

-- What the calls of the constructor come to, one after the other and without the cleanup: the port, or the
-- error of the first call that raised.
abbrev pub start_calls : {State : Type 0} → Platform State → List Text → State → Outcome Text ℕ
start_calls platform command system =
    let spawned = platform.spawn command system in
    let launched = platform.launch spawned.0 in
    spawned.1 >>= λ u. launched.1 >>= λ v. (platform.get_port launched.0).1

-- A server whose construction returned has a process, a started reader and the port of the calls, and was
-- not cleaned; one whose construction raised was cleaned, and the error is that of the calls, with the
-- errors of the cleanup.
abbrev pub IsStarted :
    {State : Type 0}
    → Platform State
    → Outcome Text ℕ
    → Server State × Outcome Error (Unit {0})
    → Type 0
IsStarted platform calls (s, ok u) =
    (s.has_process ≡ true)
    × (s.has_reader ≡ true)
    × (s.cleaned ≡ false)
    × (s.calls ≡ [])
    × ((port : ℕ) × (s.port ≡ some port) × (calls ≡ ok port))
IsStarted platform calls (s, err e) =
    (calls ≡ err e.text) × IsFinal platform (some e.text) s × (e.cleanup_note ≡ s.cleanup_errors)

module _ {State : Type 0} (platform : Platform State) where
  abandon-IsStarted :
      (text : Text) (s : Server State)
      → s.cleaned ≡ false
      → IsStarted platform (err text) (abandon platform text s)
  unfolding abandon
  abandon-IsStarted text s first = (
    refl,
    cleanup-IsFinal platform (some text) (record s { original_error = some text }) first refl,
    refl,
  )

  got_port-IsStarted :
      (s : Server State) (answer : State × Outcome Text ℕ)
      → s.cleaned ≡ false
      → s.has_process ≡ true
      → s.has_reader ≡ true
      → s.calls ≡ []
      → IsStarted platform answer.1 (got_port platform s answer)
  got_port-IsStarted s (system, err text) first process reader calls =
      abandon-IsStarted text (record s { system = system }) first
  got_port-IsStarted s (system, ok port) first process reader calls =
      (process, reader, first, calls, (port, refl, refl))

  launched-IsStarted :
      (s : Server State) (answer : State × Outcome Text (Unit {0}))
      → s.cleaned ≡ false
      → s.has_process ≡ true
      → s.calls ≡ []
      → IsStarted platform
          (answer.1 >>= λ u. (platform.get_port answer.0).1)
          (launched platform s answer)
  launched-IsStarted s (system, err text) first process calls =
      abandon-IsStarted text (record s { system = system; has_reader = true }) first
  launched-IsStarted s (system, ok u) first process calls =
      got_port-IsStarted (record s { system = system; has_reader = true })
        (platform.get_port system) first process refl calls

  spawned-IsStarted :
      (s : Server State) (answer : State × Outcome Text (Unit {0}))
      → s.cleaned ≡ false
      → s.calls ≡ []
      → IsStarted platform
          (answer.1 >>= λ u. (platform.launch answer.0).1 >>= λ v.
            (platform.get_port (platform.launch answer.0).0).1)
          (spawned platform s answer)
  spawned-IsStarted s (system, err text) first calls =
      abandon-IsStarted text (record s { system = system }) first
  spawned-IsStarted s (system, ok u) first calls =
      launched-IsStarted (record s { system = system; has_process = true }) (platform.launch system)
        first refl calls

  -- If the calls of the constructor, one after the other, give a port, it returns a server with a process,
  -- a reader and this port, on which no cleanup ran. Otherwise it raises the error of the first call that
  -- raised, and then it has cleaned up: the record has this error, and the error carries the errors of the
  -- cleanup.
  pub start_server-IsStarted :
      (command : List Text) (system : State)
      → IsStarted platform
          (start_calls platform command system)
          (start_server platform command system)
  unfolding start_server
  start_server-IsStarted command system =
      spawned-IsStarted (fresh platform command system) (platform.spawn command system) refl refl

  abbrev pub IsOriginal : Error → Option Record → Outcome Failure (Unit {0}) → Type 0
  IsOriginal error made result =
      (r : Record) × (made ≡ some r)
      × (r.original_error ≡ some error.text)
      × (result
          ≡ err (
              original
                (if is_clean platform r then error else record error { record_note = some r })))

  -- Leaving the context of a server on which no cleanup ran with an error of the body raises this error
  -- again, with the record as a note exactly if the record is not clean, and the record has its text.
  pub exit_server-IsOriginal :
      (error : Error) (s : Server State)
      → s.cleaned ≡ false
      → IsOriginal error
          (exit_server platform (some error) s).0.record_made
          (exit_server platform (some error) s).1
  unfolding exit_server
  exit_server-IsOriginal error s first =
      let blamed : Server State = record s { original_error = some error.text } in
      let (cleaned, kept, (r, e, text, errors, forced)) =
        cleanup-IsRecorded platform (some error.text) blamed first refl in
      (r, e, text, rw e refl)
