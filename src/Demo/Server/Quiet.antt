-- ===== src/Demo/Server/Quiet.antt =====
-- What the record of DemoServer in scripts/demo_task_application.py says about the calls of its cleanup.
use hp_http_server.Common.{
  ◌≡◌, ◌≢◌, refl, ap, sym, ◌∙◌, some-injective, Bool, true, false, not, ◌&&◌, Option, none, some,
  List, [], ◌∷◌, ◌++◌, All, All-append, arith, if_holds, Bool-cases, else_holds, inl, inr, ok,
}
use hp_http_server.Common.Text.{Text, is_empty}
use hp_http_server.Demo.Server.{
  Record, Action, terminate, wait, kill, join, close, save, Response, done, timed_out, raised,
  Platform, Server, attempt, is_failed, invoke, add_errors, terminate_running, after_wait,
  wait_ended, stop_process, join_reader, close_pipe, describe, save_record, finish_cleanup, cleanup,
  is_clean, is_zero, exit_normal, exit_server,
}

abbrev pub IsQuiet : Action × Response → Type 0
IsQuiet (action, response) = (response ≡ done) × (action ≢ kill)

abbrev quiet : {State : Type 0} → Server State → Bool
quiet s = is_empty s.cleanup_errors && not s.forced

-- Without an error and without force, no call failed and none was a kill.
abbrev IsCalm : {State : Type 0} → Server State → Type 0
IsCalm s = quiet s ≡ true → All IsQuiet s.calls

-- The record that was made has the errors and the force of the server.
abbrev Agrees : {State : Type 0} → Server State → Type 0
Agrees s =
    (r : Record)
    → s.record_made ≡ some r
    → (r.cleanup_errors ≡ s.cleanup_errors) × (r.forced ≡ s.forced)

module _ {State : Type 0} (platform : Platform State) where
  failed_none :
      (errors : List Text) (r : Response)
      → is_empty (errors ++ is_failed platform r) ≡ true
      → (is_empty errors ≡ true) × (r ≡ done)
  failed_none [] done h = (refl, refl)
  failed_none [] (timed_out text) h = cc
  failed_none [] (raised text) h = cc
  failed_none (e ∷ errors) r h = cc

  attempt-quiet :
      (action : Action) (s : Server State)
      → quiet (attempt platform action s) ≡ true
      → (quiet s ≡ true) × ((platform.call action s.system).1 ≡ done)
  unfolding attempt
  attempt-quiet action s h =
      let (empty, ended) =
        failed_none s.cleanup_errors (platform.call action s.system).1 (ground arith) in
      (ground arith, ended)

  attempt-IsCalm :
      (action : Action) (s : Server State)
      → action ≢ kill
      → IsCalm s
      → IsCalm (attempt platform action s)
  unfolding attempt
  attempt-IsCalm action s other calm h =
      let (before, ended) = attempt-quiet action s h in
      All-append IsQuiet s.calls (action, (platform.call action s.system).1) (calm before)
        (ended, other)

  terminate_running-IsCalm : (s : Server State) → IsCalm s → IsCalm (terminate_running platform s)
  unfolding terminate_running
  terminate_running-IsCalm s calm =
      let polled : Server State = record s { system = (platform.poll s.system).0 } in
      if_holds IsCalm (platform.poll s.system).1 (attempt platform terminate polled) polled
        (attempt-IsCalm terminate polled (λ e. cc e) calm) calm

  after_wait-IsCalm :
      (r : Response) (s : Server State)
      → r ≡ (platform.call wait s.system).1
      → IsCalm s
      → IsCalm (after_wait platform r (invoke platform wait s))
  unfolding after_wait
  after_wait-IsCalm done s e calm h =
      All-append IsQuiet s.calls (wait, (platform.call wait s.system).1) (calm h) (cc e, λ f. cc f)
  after_wait-IsCalm (timed_out text) s e calm h =
      let forced : Server State = record (invoke platform wait s) { forced = true } in
      let killed = attempt-quiet wait (attempt platform kill forced) h in
      let before = attempt-quiet kill forced killed.0 in absurd (ground (arith, before.0))
  after_wait-IsCalm (raised text) s e calm h =
      let noted = add_errors platform (text ∷ []) (invoke platform wait s) in
      let killed = attempt-quiet wait (attempt platform kill noted) h in
      let before = attempt-quiet kill noted killed.0 in
      absurd (raised_noted s.cleanup_errors (ground (arith, before.0)))
    where
      raised_noted : (errors : List Text) → is_empty (errors ++ text ∷ []) ≡ true → ⊥
      raised_noted [] f = cc f
      raised_noted (x ∷ errors) f = cc f

  stop_process-IsCalm : (s : Server State) → IsCalm s → IsCalm (stop_process platform s)
  unfolding stop_process wait_ended
  stop_process-IsCalm s calm =
      let ready = terminate_running platform s in
      if_holds IsCalm s.has_process (wait_ended platform ready) s
        (after_wait-IsCalm (platform.call wait ready.system).1 ready refl
          (terminate_running-IsCalm s calm))
        calm

  join_reader-IsCalm : (s : Server State) → IsCalm s → IsCalm (join_reader platform s)
  unfolding join_reader
  join_reader-IsCalm s calm =
      if_holds IsCalm (s.has_reader && platform.has_ident s.system) (attempt platform join s) s
        (attempt-IsCalm join s (λ e. cc e) calm) calm

  close_pipe-IsCalm : (s : Server State) → IsCalm s → IsCalm (close_pipe platform s)
  unfolding close_pipe
  close_pipe-IsCalm s calm =
      if_holds IsCalm (s.has_process && platform.has_stdout s.system) (attempt platform close s) s
        (attempt-IsCalm close s (λ e. cc e) calm) calm

  cleanup-IsCalm : (s : Server State) → s.cleaned ≡ false → IsCalm s → IsCalm (cleanup platform s)
  unfolding cleanup finish_cleanup save_record
  cleanup-IsCalm s first calm =
      let closed = close_pipe platform (join_reader platform (stop_process platform s)) in
      else_holds IsCalm s.cleaned s (finish_cleanup platform closed) first (
        attempt-IsCalm (save (describe platform closed)) closed (λ e. cc e)
          (close_pipe-IsCalm (join_reader platform (stop_process platform s))
            (join_reader-IsCalm (stop_process platform s) (stop_process-IsCalm s calm))))

  clean_quiet :
      (s : Server State) (r : Record)
      → r.cleanup_errors ≡ s.cleanup_errors
      → r.forced ≡ s.forced
      → is_clean platform r ≡ true
      → r.forced ≡ false
      → quiet s ≡ true
  clean_quiet s r errors forced clean gentle =
      let none_noted : is_empty r.cleanup_errors ≡ true = ground (arith, clean) in
      rw (← errors, none_noted, ← forced, gentle) refl

  exit_normal_sound :
      (found : Option Record)
      → exit_normal platform found ≡ ok tt
      → (r : Record) × (found ≡ some r)
        × (is_clean platform r ≡ true)
        × (is_zero r.returncode ≡ true)
        × (r.forced ≡ false)
  exit_normal_sound none h = cc
  exit_normal_sound (some r) h =
      elim (Bool-cases (is_clean platform r && is_zero r.returncode && not r.forced)) [
        | inl clean ↦ (r, refl, ground (arith, clean), ground (arith, clean), ground (arith, clean))
        | inr other ↦ cc (rw other at h)
      ]

  save_record-Agrees :
      (made : Record) (s : Server State)
      → made.forced ≡ s.forced
      → Agrees (save_record platform made s)
  unfolding save_record attempt
  save_record-Agrees made s same r e =
      let found =
        some-injective
          (record made { cleanup_errors = (attempt platform (save made) s).cleanup_errors }) r e in
      (
        ap (λ (x : Record). x.cleanup_errors) (sym found),
        ap (λ (x : Record). x.forced) (sym found) ∙ same,
      )

  finish_cleanup-Agrees : (s : Server State) → Agrees (finish_cleanup platform s)
  unfolding finish_cleanup describe
  finish_cleanup-Agrees s = save_record-Agrees (describe platform s) s refl

  cleanup-Agrees : (s : Server State) → s.cleaned ≡ false → Agrees (cleanup platform s)
  unfolding cleanup
  cleanup-Agrees s first =
      let closed = close_pipe platform (join_reader platform (stop_process platform s)) in
      else_holds Agrees s.cleaned s (finish_cleanup platform closed) first
        (finish_cleanup-Agrees closed)

  -- If the server was not cleaned before and no call was made, and its context is left without an error
  -- and `__exit__` returns, then every call of the cleanup was done, none of them killed the process, and
  -- the record that was written says that the process ended with 0, the reader is joined, the pipe is
  -- closed, and no error came up.
  pub exit_server-IsQuiet :
      (s : Server State)
      → s.cleaned ≡ false
      → s.calls ≡ []
      → (exit_server platform none s).1 ≡ ok tt
      → All IsQuiet (exit_server platform none s).0.calls
        × ((r : Record) × ((exit_server platform none s).0.record_made ≡ some r)
            × (is_clean platform r ≡ true)
            × (is_zero r.returncode ≡ true))
  unfolding exit_server
  exit_server-IsQuiet s first none_made h =
      let (r, e, clean, zero, gentle) = exit_normal_sound (cleanup platform s).record_made h in
      let (errors, forced) = cleanup-Agrees s first r e in
      (
        cleanup-IsCalm s first (λ f. rw none_made tt)
            (clean_quiet (cleanup platform s) r errors forced clean gentle),
        (r, e, clean, zero),
      )
