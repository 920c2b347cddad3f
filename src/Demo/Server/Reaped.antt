-- ===== src/Demo/Server/Reaped.antt =====
-- That DemoServer in scripts/demo_task_application.py leaves no process behind.
use hp_http_server.Common.{
  ◌≡◌, refl, Bool, true, false, not, ◌&&◌, some, [], ◌∷◌, if◌then◌else◌, if_holds, then_holds,
  else_holds,
}
use hp_http_server.Demo.Server.{
  Record, Action, wait, kill, join, close, save, Response, done, timed_out, raised, Platform,
  Server, attempt, invoke, add_errors, terminate_running, after_wait, wait_ended, stop_process,
  join_reader, close_pipe, describe, save_record, finish_cleanup, cleanup, is_none,
}

module _ {State : Type 0} (platform : Platform State)
    (wait_reaps : (st : State)
      → (platform.call wait st).1 ≡ done
      → is_none (platform.returncode (platform.call wait st).0) ≡ false)
    (kill_ends : (st : State) → (platform.call wait (platform.call kill st).0).1 ≡ done)
    (stays_reaped : (action : Action) (st : State)
      → is_none (platform.returncode st) ≡ false
      → is_none (platform.returncode (platform.call action st).0) ≡ false) where
  abbrev IsReaped : Server State → Type 0
  IsReaped s = is_none (platform.returncode s.system) ≡ false

  wait_after_kill : (s : Server State) → IsReaped (attempt platform wait (attempt platform kill s))
  unfolding attempt
  wait_after_kill s = wait_reaps (platform.call kill s.system).0 (kill_ends s.system)

  after_wait-IsReaped :
      (r : Response) (s : Server State)
      → (platform.call wait s.system).1 ≡ r
      → IsReaped (after_wait platform r (invoke platform wait s))
  unfolding after_wait
  after_wait-IsReaped done s e = wait_reaps s.system e
  after_wait-IsReaped (timed_out text) s e =
      wait_after_kill (record (invoke platform wait s) { forced = true })
  after_wait-IsReaped (raised text) s e =
      wait_after_kill (add_errors platform (text ∷ []) (invoke platform wait s))

  attempt-IsReaped :
      (action : Action) (s : Server State) → IsReaped s → IsReaped (attempt platform action s)
  unfolding attempt
  attempt-IsReaped action s h = stays_reaped action s.system h

  stop_process-IsReaped :
      (s : Server State) → s.has_process ≡ true → IsReaped (stop_process platform s)
  unfolding stop_process wait_ended
  stop_process-IsReaped s e =
      let ready = terminate_running platform s in
      then_holds IsReaped s.has_process (wait_ended platform ready) s e
        (after_wait-IsReaped (platform.call wait ready.system).1 ready refl)

  join_reader-IsReaped : (s : Server State) → IsReaped s → IsReaped (join_reader platform s)
  unfolding join_reader
  join_reader-IsReaped s h =
      if_holds IsReaped (s.has_reader && platform.has_ident s.system) (attempt platform join s) s
        (attempt-IsReaped join s h) h

  close_pipe-IsReaped : (s : Server State) → IsReaped s → IsReaped (close_pipe platform s)
  unfolding close_pipe
  close_pipe-IsReaped s h =
      if_holds IsReaped (s.has_process && platform.has_stdout s.system) (attempt platform close s) s
        (attempt-IsReaped close s h) h

  abbrev pub IsWitnessed : Server State → Type 0
  IsWitnessed s = IsReaped s × ((r : Record) × (s.record_made ≡ some r) × (r.reaped ≡ true))

  finish_cleanup-IsWitnessed :
      (s : Server State) → IsReaped s → IsWitnessed (finish_cleanup platform s)
  unfolding finish_cleanup save_record describe
  finish_cleanup-IsWitnessed s h = (
    attempt-IsReaped (save (describe platform s)) s h,
    (
      record (describe platform s) {
        cleanup_errors = (attempt platform (save (describe platform s)) s).cleanup_errors;
      },
      refl,
      reaped_of s.has_process h,
    ),
  )
    where
      reaped_of : {c : Bool} (b : Bool) → c ≡ false → (if b then not c else true) ≡ true
      reaped_of true e = rw e refl
      reaped_of false e = refl

  -- Where a wait that returns reaps the process, a kill ends it within the time of the next wait, and a
  -- reaped process stays reaped, the first cleanup of a server that has a process leaves the process
  -- reaped, whatever else the calls answer and raise, and its record says so.
  pub cleanup-IsWitnessed :
      (s : Server State)
      → s.cleaned ≡ false
      → s.has_process ≡ true
      → IsWitnessed (cleanup platform s)
  unfolding cleanup
  cleanup-IsWitnessed s first e =
      let closed = close_pipe platform (join_reader platform (stop_process platform s)) in
      else_holds IsWitnessed s.cleaned s (finish_cleanup platform closed) first (
        finish_cleanup-IsWitnessed closed (
          close_pipe-IsReaped (join_reader platform (stop_process platform s))
            (join_reader-IsReaped (stop_process platform s) (stop_process-IsReaped s e))))
