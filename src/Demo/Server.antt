-- ===== src/Demo/Server.antt =====
-- DemoServer in scripts/demo_task_application.py: its construction, its cleanup and its exit as a context
-- manager. The process, the reader thread, the pipe and the file of the record belong to Python and the
-- operating system: a Platform is the record of the calls, with a state of its own.
pub mod Quiet
pub mod Reaped
pub mod Ending
use hp_http_server.Common.{
  ℕ, Bool, true, false, not, ◌&&◌, Option, none, some, List, [], ◌∷◌, ◌++◌, ◌==◌, if◌then◌else◌,
  Outcome, ok, err,
}
use hp_http_server.Common.Int.{ℤ, pos}
use hp_http_server.Common.Text.{Text, codes, is_empty}

-- What is written beside the log, and returned by `cleanup`.
pub record Record : Type 0 where
  pub argv : List Text
  pub pid : Option ℕ
  pub returncode : Option ℤ
  pub reaped : Bool
  pub reader_joined : Bool
  pub pipes_closed : Bool
  pub forced : Bool
  pub reader_error : Option Text
  pub cleanup_errors : List Text
  pub original_error : Option Text
  pub listen_address : Text
  pub client_address : Text
  pub port : Option ℕ

-- The calls of `cleanup` that may raise, and how they end: `timed_out` is TimeoutExpired, and a raise
-- carries the `repr` of its error.
pub data Action : Type 0 where
  terminate wait kill join close : Action
  save : Record → Action

pub data Response : Type 0 where
  done : Response
  timed_out : Text → Response
  raised : Text → Response

pub record Platform (State : Type 0) : Type 0 where
  pub spawn : List Text → State → State × Outcome Text (Unit {0})
  pub launch : State → State × Outcome Text (Unit {0})
  pub get_port : State → State × Outcome Text ℕ
  pub poll : State → State × Bool
  pub call : Action → State → State × Response
  pub pid : State → ℕ
  pub returncode : State → Option ℤ
  pub has_ident : State → Bool
  pub is_alive : State → Bool
  pub has_stdout : State → Bool
  pub is_closed : State → Bool
  pub reader_error : State → Option Text

-- `calls` are the calls of `cleanup` so far, with their responses; no field of the source.
pub record Server (State : Type 0) : Type 0 where
  pub system : State
  pub command : List Text
  pub has_process : Bool
  pub has_reader : Bool
  pub port : Option ℕ
  pub forced : Bool
  pub cleaned : Bool
  pub cleanup_errors : List Text
  pub original_error : Option Text
  pub record_made : Option Record
  pub calls : List (Action × Response)

-- An error with the notes that were added to it.
pub record Error : Type 0 where
  pub text : Text
  pub cleanup_note : List Text
  pub record_note : Option Record

pub data Failure : Type 0 where
  no_record : Failure
  not_clean : Record → Failure
  original : Error → Failure

abbrev pub error_of : Text → Error
error_of text = record { text = text; cleanup_note = []; record_note = none }

abbrev pub is_none {ℓ} : {A : Type ℓ} → Option A → Bool
is_none none = true
is_none (some a) = false

abbrev pub is_zero : Option ℤ → Bool
is_zero (some (pos n)) = n == 0
is_zero _ = false

module _ {State : Type 0} (platform : Platform State) where
  abbrev pub is_failed : Response → List Text
  is_failed done = []
  is_failed (timed_out text) = text ∷ []
  is_failed (raised text) = text ∷ []

  abbrev pub invoke : Action → Server State → Server State
  invoke action s = record s {
    system = (platform.call action s.system).0;
    calls = s.calls ++ (action, (platform.call action s.system).1) ∷ [];
  }

  abbrev pub add_errors : List Text → Server State → Server State
  add_errors errors s = record s { cleanup_errors = s.cleanup_errors ++ errors }

  -- A call whose error is noted and goes no further.
  unfoldable pub attempt : Action → Server State → Server State
  attempt action s = add_errors (is_failed (platform.call action s.system).1) (invoke action s)

  unfoldable pub terminate_running : Server State → Server State
  unfolding attempt
  terminate_running s =
      let polled : Server State = record s { system = (platform.poll s.system).0 } in
      let terminated = attempt terminate polled in
      if (platform.poll s.system).1 then terminated else polled

  -- What follows the first wait for the process.
  unfoldable pub after_wait : Response → Server State → Server State
  unfolding attempt
  after_wait done s = s
  after_wait (timed_out text) s = attempt wait (attempt kill (record s { forced = true }))
  after_wait (raised text) s = attempt wait (attempt kill (add_errors (text ∷ []) s))

  unfoldable pub wait_ended : Server State → Server State
  unfolding after_wait
  wait_ended s = after_wait (platform.call wait s.system).1 (invoke wait s)

  unfoldable pub stop_process : Server State → Server State
  unfolding terminate_running wait_ended
  stop_process s = if s.has_process then wait_ended (terminate_running s) else s

  unfoldable pub join_reader : Server State → Server State
  unfolding attempt
  join_reader s = if s.has_reader && platform.has_ident s.system then attempt join s else s

  unfoldable pub close_pipe : Server State → Server State
  unfolding attempt
  close_pipe s = if s.has_process && platform.has_stdout s.system then attempt close s else s

  abbrev pub when {ℓ} : {A : Type ℓ} → Bool → A → Option A
  when true a = some a
  when false a = none

  abbrev pub returncode_of : Server State → Option ℤ
  returncode_of s = if s.has_process then platform.returncode s.system else none

  unfoldable pub describe : Server State → Record
  describe s = record {
    argv = s.command;
    pid = when s.has_process (platform.pid s.system);
    returncode = returncode_of s;
    reaped = if s.has_process then not (is_none (platform.returncode s.system)) else true;
    reader_joined = if s.has_reader then not (platform.is_alive s.system) else true;
    pipes_closed =
        if s.has_process && platform.has_stdout s.system then platform.is_closed s.system else true;
    forced = s.forced;
    reader_error = platform.reader_error s.system;
    cleanup_errors = s.cleanup_errors;
    original_error = s.original_error;
    listen_address = codes "0.0.0.0";
    client_address = codes "127.0.0.1";
    port = s.port;
  }

  -- The record is written before it is returned, and shares the list of errors with the server: an
  -- error of the write is in what is returned.
  unfoldable pub save_record : Record → Server State → Server State
  unfolding attempt
  save_record made s =
      let saved = attempt (save made) s in
      record saved {
        cleaned = true;
        record_made = some (record made { cleanup_errors = saved.cleanup_errors });
      }

  unfoldable pub finish_cleanup : Server State → Server State
  unfolding describe save_record
  finish_cleanup s = save_record (describe s) s

  unfoldable pub cleanup : Server State → Server State
  unfolding stop_process join_reader close_pipe finish_cleanup
  cleanup s = if s.cleaned then s else finish_cleanup (close_pipe (join_reader (stop_process s)))

  -- The error path of the constructor.
  unfoldable pub abandon : Text → Server State → Server State × Outcome Error (Unit {0})
  unfolding cleanup
  abandon text s =
      let cleaned = cleanup (record s { original_error = some text }) in
      (cleaned, err (record (error_of text) { cleanup_note = cleaned.cleanup_errors }))

  abbrev pub fresh : List Text → State → Server State
  fresh command system = record {
    system = system;
    command = command;
    has_process = false;
    has_reader = false;
    port = none;
    forced = false;
    cleaned = false;
    cleanup_errors = [];
    original_error = none;
    record_made = none;
    calls = [];
  }

  abbrev pub got_port :
      Server State → State × Outcome Text ℕ → Server State × Outcome Error (Unit {0})
  got_port s (system, err text) = abandon text (record s { system = system })
  got_port s (system, ok port) = (record s { system = system; port = some port }, ok tt)

  abbrev pub launched :
      Server State → State × Outcome Text (Unit {0}) → Server State × Outcome Error (Unit {0})
  launched s (system, err text) = abandon text (record s { system = system; has_reader = true })
  launched s (system, ok u) =
      got_port (record s { system = system; has_reader = true }) (platform.get_port system)

  abbrev pub spawned :
      Server State → State × Outcome Text (Unit {0}) → Server State × Outcome Error (Unit {0})
  spawned s (system, err text) = abandon text (record s { system = system })
  spawned s (system, ok u) =
      launched (record s { system = system; has_process = true }) (platform.launch system)

  -- The constructor: the process, the thread of the reader, the port.
  unfoldable pub start_server : List Text → State → Server State × Outcome Error (Unit {0})
  unfolding abandon
  start_server command system = spawned (fresh command system) (platform.spawn command system)

  abbrev pub is_clean : Record → Bool
  is_clean r =
      r.reaped
      && r.reader_joined
      && r.pipes_closed
      && is_empty r.cleanup_errors
      && is_none r.reader_error

  abbrev pub exit_error : Error → Option Record → Outcome Failure (Unit {0})
  exit_error error none = err no_record
  exit_error error (some r) =
      err (original (if is_clean r then error else record error { record_note = some r }))

  abbrev pub exit_normal : Option Record → Outcome Failure (Unit {0})
  exit_normal none = err no_record
  exit_normal (some r) =
      if is_clean r && is_zero r.returncode && not r.forced then ok tt else err (not_clean r)

  -- `__exit__`: an error of the body goes on as it is; without one, a cleanup that is not clean raises.
  unfoldable pub exit_server :
      Option Error → Server State → Server State × Outcome Failure (Unit {0})
  unfolding cleanup
  exit_server none s = let cleaned = cleanup s in (cleaned, exit_normal cleaned.record_made)
  exit_server (some error) s =
      let cleaned = cleanup (record s { original_error = some error.text }) in
      (cleaned, exit_error error cleaned.record_made)
