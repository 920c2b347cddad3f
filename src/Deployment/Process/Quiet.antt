-- ===== src/Deployment/Process/Quiet.antt =====
-- What the record of ServerProcess in scripts/verify_deployment.py says about the calls of its cleanup.
use hp_http_server.Common.{
  ◌≡◌, ◌≢◌, refl, ap, ◌∙◌, some-injective, Bool, true, false, not, ◌&&◌, Option, none, some, List,
  [], ◌∷◌, ◌++◌, All, All-append, arith, if◌then◌else◌, if_holds, else_holds, Bool-cases, inl, inr,
  Outcome, ok, err,
}
use hp_http_server.Common.Text.{Text, is_empty}
use hp_http_server.Deployment.Process.{
  Stream, stdout, stderr, Action, terminate, wait, kill, join, close, write, Platform, Closing,
  Process, Error, Failure, bad_exit, noted, is_clean, is_normal, attempt, after_wait, stop_running,
  stop_process, join_readers, close_pipes, write_streams, closing_of, update_record, clean_up,
  report, cleanup, exit_checked, exit_process,
}

abbrev pub IsQuiet : Action × Option Text → Type 0
IsQuiet (action, raised) = (raised ≡ none) × (action ≢ kill)

abbrev quiet : {State : Type 0} → Process State → Bool
quiet p = is_empty p.cleanup_errors && not p.forced

-- Without an error and without force, no call raised and none was a kill.
abbrev IsCalm : {State : Type 0} → Process State → Type 0
IsCalm p = quiet p ≡ true → All IsQuiet p.calls

-- The record has the errors of the cleanup, and its force at least.
abbrev Agrees : {State : Type 0} → Process State → Type 0
Agrees p = (c : Closing) → p.made.closing ≡ some c → is_clean c ≡ true → quiet p ≡ true

module _ {State : Type 0} (platform : Platform State) where
  errors_empty :
      (errors : List Text) (raised : Option Text)
      → is_empty (errors ++ noted raised) ≡ true
      → (is_empty errors ≡ true) × (raised ≡ none)
  errors_empty [] none h = (refl, refl)
  errors_empty [] (some text) h = cc
  errors_empty (e ∷ errors) raised h = cc

  attempt-quiet :
      (action : Action) (p : Process State)
      → quiet (attempt platform action p) ≡ true
      → (quiet p ≡ true) × ((platform.call action p.system).1 ≡ none)
  unfolding attempt
  attempt-quiet action p h =
      let (empty, ended) =
        errors_empty p.cleanup_errors (platform.call action p.system).1 (ground arith) in
      (ground arith, ended)

  attempt-IsCalm :
      (action : Action) (p : Process State)
      → action ≢ kill
      → IsCalm p
      → IsCalm (attempt platform action p)
  unfolding attempt
  attempt-IsCalm action p other calm h =
      let (before, ended) = attempt-quiet action p h in
      All-append IsQuiet p.calls (action, (platform.call action p.system).1) (calm before)
        (ended, other)

  after_wait-IsCalm :
      (raised : Option Text) (p : Process State) → IsCalm p → IsCalm (after_wait platform raised p)
  unfolding after_wait
  after_wait-IsCalm none p calm h = calm h
  after_wait-IsCalm (some text) p calm h =
      let forced : Process State = record p { forced = true } in
      let killed = attempt-quiet wait (attempt platform kill forced) h in
      let before = attempt-quiet kill forced killed.0 in absurd (ground (arith, before.0))

  stop_running-IsCalm : (p : Process State) → IsCalm p → IsCalm (stop_running platform p)
  unfolding stop_running
  stop_running-IsCalm p calm =
      let terminated = attempt platform terminate p in
      after_wait-IsCalm (platform.call wait terminated.system).1 (attempt platform wait terminated)
        (attempt-IsCalm wait terminated (λ e. cc e) (attempt-IsCalm terminate p (λ e. cc e) calm))

  stop_process-IsCalm : (p : Process State) → IsCalm p → IsCalm (stop_process platform p)
  unfolding stop_process
  stop_process-IsCalm p calm =
      let polled : Process State = record p { system = (platform.poll p.system).0 } in
      let stopped = if (platform.poll p.system).1 then stop_running platform polled else polled in
      if_holds IsCalm p.has_process (attempt platform wait stopped) p
        (attempt-IsCalm wait stopped (λ e. cc e)
          (if_holds IsCalm (platform.poll p.system).1 (stop_running platform polled) polled
            (stop_running-IsCalm polled calm) calm))
        calm

  join_readers-IsCalm :
      (readers : List Stream) (p : Process State)
      → IsCalm p
      → IsCalm (join_readers platform readers p)
  unfolding join_readers
  join_readers-IsCalm [] p calm = calm
  join_readers-IsCalm (reader ∷ readers) p calm =
      join_readers-IsCalm readers (attempt platform (join reader) p)
        (attempt-IsCalm (join reader) p (λ e. cc e) calm)

  close_pipes-IsCalm : (p : Process State) → IsCalm p → IsCalm (close_pipes platform p)
  unfolding close_pipes
  close_pipes-IsCalm p calm =
      let first = attempt platform (close stdout) p in
      if_holds IsCalm p.has_process (attempt platform (close stderr) first) p
        (attempt-IsCalm (close stderr) first (λ e. cc e)
          (attempt-IsCalm (close stdout) p (λ e. cc e) calm))
        calm

  write_streams-IsCalm : (p : Process State) → IsCalm p → IsCalm (write_streams platform p)
  unfolding write_streams
  write_streams-IsCalm p calm =
      attempt-IsCalm (write stderr) (attempt platform (write stdout) p) (λ e. cc e)
        (attempt-IsCalm (write stdout) p (λ e. cc e) calm)

  update_record-Agrees : (p : Process State) → Agrees (update_record platform p)
  unfolding update_record closing_of
  update_record-Agrees p c e clean =
      let found = some-injective (closing_of platform p) c e in
      let errors : is_empty c.cleanup_errors ≡ true = ground (arith, clean) in
      let gentle : c.forced ≡ false = ground (arith, clean) in
      let empty = ap (λ (x : Closing). is_empty x.cleanup_errors) found ∙ errors in
      let unforced = ap (λ (x : Closing). x.forced) found ∙ gentle in
      ground (arith, empty, unforced)

  clean_up-IsCalm : (p : Process State) → IsCalm p → IsCalm (clean_up platform p)
  unfolding clean_up update_record
  clean_up-IsCalm p calm =
      let stopped = stop_process platform (record p { cleaned = true }) in
      let joined = join_readers platform p.readers stopped in
      write_streams-IsCalm (close_pipes platform joined) (
        close_pipes-IsCalm joined (
          join_readers-IsCalm p.readers stopped
            (stop_process-IsCalm (record p { cleaned = true }) calm)))

  clean_up-Agrees : (p : Process State) → Agrees (clean_up platform p)
  unfolding clean_up
  clean_up-Agrees p =
      let stopped = stop_process platform (record p { cleaned = true }) in
      update_record-Agrees
        (write_streams platform (close_pipes platform (join_readers platform p.readers stopped)))

  exit_normal :
      (p : Process State)
      → ◌≡◌ {A = Outcome Failure (Unit {0})}
          (if is_normal p.made.closing then ok tt else err bad_exit)
          (ok tt)
      → is_normal p.made.closing ≡ true
  exit_normal p h = elim (Bool-cases (is_normal p.made.closing)) [
    | inl normal ↦ normal
    | inr other ↦ cc (rw other at h)
  ]

  exit_checked_sound :
      (found : Option Closing) (p : Process State)
      → p.made.closing ≡ found
      → (exit_checked platform
          (p, (report platform none p.made found).0, (report platform none p.made found).1)).1
        ≡ ok tt
      → (c : Closing) × (p.made.closing ≡ some c)
        × (is_clean c ≡ true)
        × (is_normal p.made.closing ≡ true)
  exit_checked_sound none p e h = let normal = exit_normal p h in absurd (cc (rw e at normal))
  exit_checked_sound (some c) p e h = elim (Bool-cases (is_clean c)) [
    | inl clean ↦ (c, e, clean, exit_normal p (rw clean at h))
    | inr other ↦ cc (rw other at h)
  ]

  abbrev IsEnded : Process State × Outcome Failure (Unit {0}) → Type 0
  IsEnded ended =
      ended.1 ≡ ok tt
      → All IsQuiet ended.0.calls
        × ((c : Closing) × (ended.0.made.closing ≡ some c)
            × (is_clean c ≡ true)
            × (is_normal ended.0.made.closing ≡ true))

  exit_process-IsEnded :
      (p : Process State)
      → p.cleaned ≡ false
      → p.calls ≡ []
      → IsEnded (exit_process platform none p)
  unfolding exit_process cleanup
  exit_process-IsEnded p first none_made =
      let after = clean_up platform p in
      let told = report platform none after.made after.made.closing in
      else_holds
        (λ (result : Process State × Option Error × Outcome Failure (Unit {0})).
          IsEnded (exit_checked platform result))
        p.cleaned (p, none, ok tt) (after, told.0, told.1) first
        (λ h.
          let (c, e, clean, normal) = exit_checked_sound after.made.closing after refl h in
          (
            clean_up-IsCalm p (λ f. rw none_made tt) (clean_up-Agrees p c e clean),
            (c, e, clean, normal),
          ))

  -- If the context of a process on which no cleanup ran is left without an error and `__exit__` returns,
  -- then no call of the cleanup raised, none killed the process, and the record says that the process
  -- ended with 0 and is gone, the readers are joined, the pipes are closed, and nothing was forced.
  pub exit_process-IsQuiet :
      (p : Process State)
      → p.cleaned ≡ false
      → p.calls ≡ []
      → (exit_process platform none p).1 ≡ ok tt
      → All IsQuiet (exit_process platform none p).0.calls
        × ((c : Closing) × ((exit_process platform none p).0.made.closing ≡ some c)
            × (is_clean c ≡ true)
            × (is_normal (exit_process platform none p).0.made.closing ≡ true))
  exit_process-IsQuiet p first none_made h = exit_process-IsEnded p first none_made h
