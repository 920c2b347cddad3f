-- ===== src/Demo/Tests/Server.antt =====
-- Tests of DemoServer of scripts/demo_task_application.py, over a process that may ignore SIGTERM.
use hp_http_server.Common.{
  ◌≡◌, refl, Bool, true, false, none, some, [], All, ok, err, if◌then◌else◌, Bool-cases, inl, inr,
}
use hp_http_server.Common.Int.{ℤ, pos, negsuc}
use hp_http_server.Common.Text.{codes}
use hp_http_server.Demo.Server.{
  Record, Action, terminate, wait, kill, join, close, save, Response, done, timed_out, Platform,
  Server, error_of, is_none, is_zero, fresh, cleanup, start_server, is_clean, exit_server,
}
use hp_http_server.Demo.Server.Quiet.{IsQuiet, exit_server-IsQuiet}
use hp_http_server.Demo.Server.Reaped.{IsWitnessed, cleanup-IsWitnessed}
use hp_http_server.Demo.Server.Ending.{
  IsFinal, cleanup-IsFinal, start_calls, IsStarted, start_server-IsStarted, IsOriginal,
  exit_server-IsOriginal,
}

pub record Machine : Type 0 where
  pub running : Bool
  pub stubborn : Bool
  pub reading : Bool
  pub closed : Bool
  pub code : ℤ

abbrev answer : Action → Machine → Machine × Response
answer terminate m = (record m { running = if m.stubborn then m.running else false }, done)
answer wait m = (m, if m.running then timed_out (codes "TimeoutExpired") else done)
answer kill m = (record m { running = false; code = negsuc 8 }, done)
answer join m = (record m { reading = m.running }, done)
answer close m = (record m { closed = true }, done)
answer (save r) m = (m, done)

abbrev pub platform : Platform Machine
platform = record {
  spawn = λ command m. (record m { running = true }, ok tt);
  launch = λ m. (record m { reading = true }, ok tt);
  get_port = λ m. (m, if m.stubborn then err (codes "Empty") else ok 8080);
  poll = λ m. (m, m.running);
  call = answer;
  pid = λ m. 7;
  returncode = λ m. if m.running then none else some m.code;
  has_ident = λ m. true;
  is_alive = λ m. m.reading;
  has_stdout = λ m. true;
  is_closed = λ m. m.closed;
  reader_error = λ m. none;
}

abbrev pub machine : Bool → Machine
machine stubborn = record {
  running = false;
  stubborn = stubborn;
  reading = false;
  closed = false;
  code = pos 0;
}

abbrev started : Bool → Server Machine
started stubborn = record (fresh platform [] (record (machine stubborn) { running = true })) {
  has_process = true;
  has_reader = true;
  port = some 8080;
}

exits : (exit_server platform none (started false)).1 ≡ ok tt
unfolding exit_server
exits = refl

forced_exit : (exit_server platform none (started true)).0.forced ≡ true
unfolding exit_server
forced_exit = refl

abandoned : (start_server platform [] (machine true)).0.cleaned ≡ true
unfolding start_server
abandoned = refl

wait_reaps :
    (m : Machine)
    → (platform.call wait m).1 ≡ done
    → is_none (platform.returncode (platform.call wait m).0) ≡ false
wait_reaps m h = elim (Bool-cases m.running) [
  | inl running ↦ cc (rw running at h)
  | inr ended ↦ ended_code m.running ended
]
  where
    ended_code : (b : Bool) → b ≡ false → is_none (if b then none else some m.code) ≡ false
    ended_code true e = cc e
    ended_code false e = refl

kill_ends : (m : Machine) → (platform.call wait (platform.call kill m).0).1 ≡ done
kill_ends m = refl

ended_stays :
    (running stubborn : Bool) (code other : ℤ)
    → is_none (if running then none else some code) ≡ false
    → is_none (if if stubborn then running else false then none else some other) ≡ false
ended_stays true stubborn code other h = cc h
ended_stays false true code other h = refl
ended_stays false false code other h = refl

stays_reaped :
    (action : Action) (m : Machine)
    → is_none (platform.returncode m) ≡ false
    → is_none (platform.returncode (platform.call action m).0) ≡ false
stays_reaped terminate m h = ended_stays m.running m.stubborn m.code m.code h
stays_reaped wait m h = h
stays_reaped kill m h = refl
stays_reaped join m h = h
stays_reaped close m h = h
stays_reaped (save r) m h = h

exit_server-IsQuiet_example :
    All IsQuiet (exit_server platform none (started false)).0.calls
    × ((r : Record) × ((exit_server platform none (started false)).0.record_made ≡ some r)
        × (is_clean platform r ≡ true)
        × (is_zero r.returncode ≡ true))
exit_server-IsQuiet_example = exit_server-IsQuiet platform (started false) refl refl exits

cleanup-IsWitnessed_example :
    IsWitnessed platform wait_reaps kill_ends stays_reaped (cleanup platform (started true))
cleanup-IsWitnessed_example =
    cleanup-IsWitnessed platform wait_reaps kill_ends stays_reaped (started true) refl refl

cleanup-IsFinal_example : IsFinal platform none (cleanup platform (started true))
cleanup-IsFinal_example = cleanup-IsFinal platform none (started true) refl refl

start_server-IsStarted_example :
    IsStarted platform
      (start_calls platform [] (machine true))
      (start_server platform [] (machine true))
start_server-IsStarted_example = start_server-IsStarted platform [] (machine true)

exit_server-IsOriginal_example :
    IsOriginal platform
      (error_of (codes "x"))
      (exit_server platform (some (error_of (codes "x"))) (started true)).0.record_made
      (exit_server platform (some (error_of (codes "x"))) (started true)).1
exit_server-IsOriginal_example =
    exit_server-IsOriginal platform (error_of (codes "x")) (started true) refl
