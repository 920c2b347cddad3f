-- ===== src/Deployment/Process.antt =====
-- ServerProcess in scripts/verify_deployment.py: its constructor, `cleanup` and `__exit__`. What the
-- process, the reader threads, the pipes and the files answer is a Platform with a state of its own; the
-- state of the readers (streams, sizes, errors) is in it.
pub mod Quiet
pub mod Ending
pub mod Starting
use hp_http_server.Common.{
  ℕ, Bool, true, false, not, ◌&&◌, ◌||◌, Option, none, some, List, [], ◌∷◌, ◌++◌, ◌==◌, all,
  if◌then◌else◌, Outcome, ok, err, required,
}
use hp_http_server.Common.Int.{ℤ, pos}
use hp_http_server.Common.Search.{◌>>=◌, span_digits, int_of, after_prefix}
use hp_http_server.Common.Text.{Text, codes, text_eq, is_empty}

pub data Stream : Type 0 where
  stdout stderr : Stream

-- Calls that may raise, with the `repr` of the error.
pub data Action : Type 0 where
  terminate wait kill : Action
  join close write : Stream → Action

pub record Platform (State : Type 0) : Type 0 where
  pub spawn : List Text → State → State × Outcome Text (Unit {0})
  pub launch : Stream → State → State × Outcome Text (Unit {0})
  pub event : Text → State → State × Outcome Text Text
  pub poll : State → State × Bool
  pub call : Action → State → State × Option Text
  pub pid : State → ℕ
  pub returncode : State → Option ℤ
  pub is_alive : Stream → State → Bool
  pub is_closed : Stream → State → Bool
  pub pid_exists : State → Bool
  pub was_killed : State → Bool
  pub reader_errors : State → List Text
  pub size : Stream → State → ℕ

-- The fields that `cleanup` adds to `self.record`, which does not have them before.
pub record Closing : Type 0 where
  pub exit : Option ℤ
  pub reaped : Bool
  pub readers_joined : Bool
  pub pipes_closed : Bool
  pub pid_exists : Bool
  pub forced : Bool
  pub reader_errors : List Text
  pub cleanup_errors : List Text
  pub port : Option ℕ
  pub admin_port : Option ℕ
  pub stdout_bytes : ℕ
  pub stderr_bytes : ℕ

pub data Injection : Type 0 where
  before_popen before_port after_http : Injection

pub record Record : Type 0 where
  pub argv : List Text
  pub fault : Option Injection
  pub original_error : Option Text
  pub pid : Option ℕ
  pub closing : Option Closing

-- `forced` is what `cleanup` sets; a reader that failed sets the same field, and is asked by `was_killed`.
-- `calls` are the calls of `cleanup`, with the error of each; no field of the source.
pub record Process (State : Type 0) : Type 0 where
  pub system : State
  pub has_process : Bool
  pub readers : List Stream
  pub forced : Bool
  pub cleaned : Bool
  pub cleanup_errors : List Text
  pub port : Option ℕ
  pub admin_port : Option ℕ
  pub made : Record
  pub calls : List (Action × Option Text)

pub record Error : Type 0 where
  pub text : Text
  pub notes : List Record

pub data Failure : Type 0 where
  not_clean : Record → Failure
  bad_exit : Failure
  carried : Error → Failure

abbrev pub error_of : Text → Error
error_of text = record { text = text; notes = [] }

abbrev pub is_none {ℓ} : {A : Type ℓ} → Option A → Bool
is_none none = true
is_none (some a) = false

abbrev pub noted : Option Text → List Text
noted none = []
noted (some text) = text ∷ []

-- `record['reaped'] and ... and not record['cleanup_errors']`
abbrev pub is_clean : Closing → Bool
is_clean c =
    c.reaped
    && c.readers_joined
    && c.pipes_closed
    && not c.pid_exists
    && not c.forced
    && is_empty c.reader_errors
    && is_empty c.cleanup_errors

abbrev pub is_normal : Option Closing → Bool
is_normal none = false
is_normal (some c) = is_zero c.exit
  where
    is_zero : Option ℤ → Bool
    is_zero (some (pos n)) = n == 0
    is_zero _ = false

abbrev digits_to : Text → Text × Text → Option Text
digits_to tail ([], s) = none
digits_to tail (d ∷ digits, s) = if text_eq s tail then some (d ∷ digits) else none

-- `int(re.fullmatch(prefix + '([0-9]+)' + tail, text).group(1))`, on a text that `event` found by a part of
-- the prefix; it raises without a match, and on a number that is too long for `int`.
abbrev pub matched : Option Text → Outcome Text ℕ
matched none = err (codes "AttributeError")
matched (some digits) = required (int_of digits) (codes "ValueError")

unfoldable pub group_in : Text → Text → Text → Option Text
unfolding after_prefix span_digits
group_in prefix tail text = do rest ← after_prefix prefix text; digits_to tail (span_digits rest)

unfoldable pub port_in : Text → Text → Text → Outcome Text ℕ
unfolding group_in
port_in prefix tail text = matched (group_in prefix tail text)

abbrev pub listening : Text
listening = codes "V0.1 / S3 minimal HTTP static file server listening on port "

abbrev pub admin_listening : Text
admin_listening = codes "HP_ADMIN_LISTENING "

module _ {State : Type 0} (platform : Platform State) where
  -- A call whose error is noted and goes no further.
  unfoldable pub attempt : Action → Process State → Process State
  attempt action p =
      let (after, raised) = platform.call action p.system in
      record p {
        system = after;
        cleanup_errors = p.cleanup_errors ++ noted raised;
        calls = p.calls ++ (action, raised) ∷ [];
      }

  -- After the wait for a process that got SIGTERM: an error of it is noted by the wait itself.
  unfoldable pub after_wait : Option Text → Process State → Process State
  unfolding attempt
  after_wait none p = p
  after_wait (some text) p = attempt wait (attempt kill (record p { forced = true }))

  unfoldable pub stop_running : Process State → Process State
  unfolding attempt after_wait
  stop_running p =
      let terminated = attempt terminate p in
      after_wait (platform.call wait terminated.system).1 (attempt wait terminated)

  unfoldable pub stop_process : Process State → Process State
  unfolding attempt stop_running
  stop_process p =
      let polled : Process State = record p { system = (platform.poll p.system).0 } in
      let stopped = if (platform.poll p.system).1 then stop_running polled else polled in
      if p.has_process then attempt wait stopped else p

  unfoldable pub join_readers : List Stream → Process State → Process State
  unfolding attempt
  join_readers [] p = p
  join_readers (reader ∷ readers) p = join_readers readers (attempt (join reader) p)

  unfoldable pub close_pipes : Process State → Process State
  unfolding attempt
  close_pipes p =
      let closed = attempt (close stderr) (attempt (close stdout) p) in
      if p.has_process then closed else p

  unfoldable pub write_streams : Process State → Process State
  unfolding attempt
  write_streams p = attempt (write stderr) (attempt (write stdout) p)

  unfoldable pub closing_of : Process State → Closing
  closing_of p = record {
    exit = if p.has_process then platform.returncode p.system else none;
    reaped = if p.has_process then not (is_none (platform.returncode p.system)) else true;
    readers_joined = all (λ (reader : Stream). not (platform.is_alive reader p.system)) p.readers;
    pipes_closed =
        if p.has_process
        then platform.is_closed stdout p.system && platform.is_closed stderr p.system
        else true;
    pid_exists = p.has_process && platform.pid_exists p.system;
    forced = p.forced || platform.was_killed p.system;
    reader_errors = platform.reader_errors p.system;
    cleanup_errors = p.cleanup_errors;
    port = p.port;
    admin_port = p.admin_port;
    stdout_bytes = platform.size stdout p.system;
    stderr_bytes = platform.size stderr p.system;
  }

  unfoldable pub update_record : Process State → Process State
  unfolding closing_of
  update_record p = record p { made = record p.made { closing = some (closing_of p) } }

  unfoldable pub clean_up : Process State → Process State
  unfolding stop_process join_readers close_pipes write_streams update_record
  clean_up p =
      let stopped = stop_process (record p { cleaned = true }) in
      update_record (write_streams (close_pipes (join_readers p.readers stopped)))

  -- The last lines of `cleanup`: a note on the original error, or an error of its own.
  abbrev pub report :
      Option Error → Record → Option Closing → Option Error × Outcome Failure (Unit {0})
  report cause r none = (cause, ok tt)
  report none r (some c) = (none, if is_clean c then ok tt else err (not_clean r))
  report (some error) r (some c) =
      (some (if is_clean c then error else record error { notes = error.notes ++ r ∷ [] }), ok tt)

  -- `cleanup`: the object, the original error with its notes, and whether it raised.
  unfoldable pub cleanup :
      Option Error → Process State → Process State × Option Error × Outcome Failure (Unit {0})
  unfolding clean_up
  cleanup cause p =
      let after = clean_up p in
      let told = report cause after.made after.made.closing in
      if p.cleaned then (p, cause, ok tt) else (after, told.0, told.1)

  abbrev pub note_original : Text → Process State → Process State
  note_original text p = record p { made = record p.made { original_error = some text } }

  abbrev pub last_error : Error → Option Error → Error
  last_error error none = error
  last_error error (some with_note) = with_note

  abbrev pub raised_again :
      Error
      → Process State × Option Error × Outcome Failure (Unit {0})
      → Process State × Outcome Failure (Unit {0})
  raised_again error (p, cause, result) = (p, err (carried (last_error error cause)))

  -- The error path of the constructor, and the exit of the context with an error: the error goes on.
  unfoldable pub fail_with : Error → Process State → Process State × Outcome Failure (Unit {0})
  unfolding cleanup
  fail_with error p = raised_again error (cleanup (some error) (note_original error.text p))

  abbrev pub exit_result : Process State → Outcome Failure (Unit {0}) → Outcome Failure (Unit {0})
  exit_result p (err failure) = err failure
  exit_result p (ok u) = if is_normal p.made.closing then ok tt else err bad_exit

  abbrev pub exit_checked :
      Process State × Option Error × Outcome Failure (Unit {0})
      → Process State × Outcome Failure (Unit {0})
  exit_checked (p, cause, result) = (p, exit_result p result)

  -- `__exit__`
  unfoldable pub exit_process :
      Option Error → Process State → Process State × Outcome Failure (Unit {0})
  unfolding cleanup fail_with
  exit_process none p = exit_checked (cleanup none p)
  exit_process (some error) p = fail_with error p

  abbrev pub fresh : List Text → Option Injection → State → Process State
  fresh argv fault system = record {
    system = system;
    has_process = false;
    readers = [];
    forced = false;
    cleaned = false;
    cleanup_errors = [];
    port = none;
    admin_port = none;
    made = record { argv = argv; fault = fault; original_error = none; pid = none; closing = none };
    calls = [];
  }

  abbrev pub Started : Type 0
  Started = Process State × Outcome Failure (Unit {0})

  -- A call of the constructor, and what follows it.
  abbrev pub try_call {ℓ} :
      {A : Type ℓ}
      → Process State
      → State × Outcome Text A
      → (A → Process State → Started)
      → Started
  try_call p (system, err text) next = fail_with (error_of text) (record p { system = system })
  try_call p (system, ok value) next = next value (record p { system = system })

  unfoldable pub start_reader : Stream → Process State → (Process State → Started) → Started
  unfolding fail_with
  start_reader stream p next =
      try_call (record p { readers = p.readers ++ stream ∷ [] }) (platform.launch stream p.system)
        (λ u q. next q)

  abbrev pub is_before_popen : Option Injection → Bool
  is_before_popen (some before_popen) = true
  is_before_popen _ = false

  abbrev pub is_before_port : Option Injection → Bool
  is_before_port (some before_port) = true
  is_before_port _ = false

  unfoldable pub find_admin_port : Process State → Started
  unfolding fail_with port_in
  find_admin_port p = try_call p (platform.event admin_listening p.system) (λ text q.
      try_call q (q.system, port_in (codes "HP_ADMIN_LISTENING 127.0.0.1 ") [] text)
        (λ port r. (record r { admin_port = some port }, ok tt)))

  unfoldable pub find_ports : Process State → Started
  unfolding fail_with port_in find_admin_port
  find_ports p = try_call p (platform.event listening p.system) (λ text q.
      try_call q (q.system, port_in listening (codes ".") text)
        (λ port r. find_admin_port (record r { port = some port })))

  unfoldable pub after_readers : Option Injection → Bool → Process State → Started
  unfolding fail_with find_ports
  after_readers fault ports p =
      if is_before_port fault
      then fail_with (error_of (codes "injected before-port")) p
      else if ports
      then find_ports p
      else (p, ok tt)

  abbrev pub note_pid : Process State → Process State
  note_pid p = record p {
    has_process = true;
    made = record p.made { pid = some (platform.pid p.system) };
  }

  unfoldable pub start_process : List Text → Option Injection → Bool → State → Started
  unfolding fail_with start_reader after_readers
  start_process argv fault ports system =
      if is_before_popen fault
      then fail_with (error_of (codes "injected before-popen")) (fresh argv fault system)
      else try_call (fresh argv fault system) (platform.spawn argv system) (λ u p.
        start_reader stdout (note_pid p) (λ q. start_reader stderr q (after_readers fault ports)))
