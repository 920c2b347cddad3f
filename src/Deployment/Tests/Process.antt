-- ===== src/Deployment/Tests/Process.antt =====
-- Tests of ServerProcess of scripts/verify_deployment.py, over a process that may ignore SIGTERM.
use hp_http_server.Common.{
  ◌++◌, All, ◌≡◌, refl, Bool, true, false, Option, none, some, [], ◌∷◌, ok, if◌then◌else◌,
}
use hp_http_server.Common.Int.{ℤ, pos, negsuc}
use hp_http_server.Common.Search.{decimal_from}
use hp_http_server.Common.Text.{Text, codes, text_eq}
use hp_http_server.Deployment.Process.{
  error_of, listening, Closing, is_clean, is_normal, stdout, stderr, Action, terminate, wait, kill,
  join, close, write, Platform, before_port, Process, fresh, start_process, exit_process,
}
use hp_http_server.Deployment.Process.Quiet.{IsQuiet, exit_process-IsQuiet}
use hp_http_server.Deployment.Process.Ending.{IsFailed, exit_process-IsFailed}
use hp_http_server.Deployment.Process.Starting.{start_calls, IsStarted, start_process-IsStarted}

record Machine : Type 0 where
  running : Bool
  stubborn : Bool
  closed : Bool
  code : ℤ

abbrev answer : Action → Machine → Machine × Option Text
answer terminate m = (record m { running = if m.stubborn then m.running else false }, none)
answer wait m = (m, if m.running then some (codes "TimeoutExpired") else none)
answer kill m = (record m { running = false; code = negsuc 8 }, none)
answer (join stream) m = (m, none)
answer (close stream) m = (record m { closed = true }, none)
answer (write stream) m = (m, none)

abbrev platform : Platform Machine
platform = record {
  spawn = λ argv m. (record m { running = true }, ok tt);
  launch = λ stream m. (m, ok tt);
  event = λ prefix m. (
    m,
    ok (
        if text_eq prefix listening
        then listening ++ codes "8080."
        else codes "HP_ADMIN_LISTENING 127.0.0.1 9090"),
  );
  poll = λ m. (m, m.running);
  call = answer;
  pid = λ m. 7;
  returncode = λ m. if m.running then none else some m.code;
  is_alive = λ stream m. m.running;
  is_closed = λ stream m. m.closed;
  pid_exists = λ m. m.running;
  was_killed = λ m. false;
  reader_errors = λ m. [];
  size = λ stream m. 0;
}

abbrev machine : Bool → Machine
machine stubborn = record { running = false; stubborn = stubborn; closed = false; code = pos 0 }

abbrev started : Bool → Process Machine
started stubborn = record (fresh platform [] none (record (machine stubborn) { running = true })) {
  has_process = true;
  readers = stdout ∷ stderr ∷ [];
}

exits : (exit_process platform none (started false)).1 ≡ ok tt
unfolding exit_process
exits = refl

forced_exit : (exit_process platform none (started true)).0.forced ≡ true
unfolding exit_process
forced_exit = refl

has_ports : (start_process platform [] none true (machine false)).0.admin_port ≡ some 9090
unfolding start_process decimal_from
has_ports = refl

abandoned : (start_process platform [] (some before_port) true (machine false)).0.cleaned ≡ true
unfolding start_process
abandoned = refl

exit_process-IsQuiet_example :
    All IsQuiet (exit_process platform none (started false)).0.calls
    × ((c : Closing) × ((exit_process platform none (started false)).0.made.closing ≡ some c)
        × (is_clean c ≡ true)
        × (is_normal (exit_process platform none (started false)).0.made.closing ≡ true))
exit_process-IsQuiet_example = exit_process-IsQuiet platform (started false) refl refl exits

start_process-IsStarted_example :
    IsStarted platform
      (start_calls platform [] (some before_port) true (machine false))
      (start_process platform [] (some before_port) true (machine false))
start_process-IsStarted_example =
    start_process-IsStarted platform [] (some before_port) true (machine false)

exit_process-IsFailed_example :
    IsFailed
      (error_of (codes "health"))
      (exit_process platform (some (error_of (codes "health"))) (started true))
exit_process-IsFailed_example =
    exit_process-IsFailed platform (error_of (codes "health")) (started true) refl
