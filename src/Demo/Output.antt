-- ===== src/Demo/Output.antt =====
-- The log reader of DemoServer in scripts/demo_task_application.py, `collect_output`, and the waiter
-- for its port, `wait_port`. The two share a queue and run in two threads: a schedule says in which
-- order their steps come, and what the calls of the operating system answer.
pub mod Window
pub mod Bounds
pub mod Notice
pub mod Announced
pub mod Found
use hp_http_server.Common.{
  ℕ, ◌+◌, Bool, true, false, Option, none, some, List, [], ◌∷◌, ◌++◌, length, leb, ◌==◌,
  if◌then◌else◌,
}
use hp_http_server.Common.Text.{Text, codes, is_empty}
use hp_http_server.Common.Search.{
  ◌>>=◌, span_digits, int_of, decimal_from, after_prefix, search_text,
}
use hp_http_server.Demo.Output.Window.{last_n}

pub data Fault : Type 0 where
  log_too_large number_too_long call_raised : Fault

-- `chunk` is what `os.read` returned to the reader, `broken` a read, an open or a write that raised,
-- each with whether `process.poll()` is None should it be asked; `take` is `port_queue.get`.
pub data Event : Type 0 where
  chunk : Text → Bool → Event
  broken : Bool → Event
  take : Event

pub record Reader : Type 0 where
  pub size : ℕ
  pub pending : Text
  pub log : Text
  pub port_queue : List ℕ
  pub port : Option ℕ
  pub is_done : Bool
  pub reader_error : Option Fault
  pub killed : Bool

abbrev pub max_log : ℕ
max_log = 16777216

abbrev pub start : Reader
start = record {
  size = 0;
  pending = [];
  log = [];
  port_queue = [];
  port = none;
  is_done = false;
  reader_error = none;
  killed = false;
}

abbrev pub number_ended : Text × Text → Option Text
number_ended ([], s) = none
number_ended (d ∷ digits, []) = none
number_ended (d ∷ digits, c ∷ s) = if c == b'.' then some (d ∷ digits) else none

-- `listening on port ([0-9]+)\\.` at the head of the text, and the digits of its group.
unfoldable pub port_at : Text → Option Text
unfolding after_prefix span_digits
port_at s = do rest ← after_prefix (codes "listening on port ") s; number_ended (span_digits rest)

-- The handler at the end of `collect_output`.
abbrev pub fail : Fault → Bool → Reader → Reader
fail fault running r = record r {
  is_done = true;
  reader_error = some fault;
  killed = if running then true else r.killed;
}

abbrev pub put_number : Option ℕ → Bool → Reader → Reader
put_number none running r = fail number_too_long running r
put_number (some port) running r = record r { port_queue = port ∷ [] }

-- A match is turned into a number, and put, only while the queue, here `ports`, is empty.
abbrev pub put_port : Option Text → List ℕ → Bool → Reader → Reader
put_port none ports running r = r
put_port (some digits) (port ∷ ports) running r = r
put_port (some digits) [] running r = put_number (int_of digits) running r

abbrev pub write_block : Text → Reader → Reader
write_block block r = record r {
  size = r.size + length block;
  pending = last_n 8192 (r.pending ++ block);
  log = r.log ++ block;
}

unfoldable pub keep : Text → Bool → Reader → Reader
unfolding port_at search_text
keep block running r =
    put_port (search_text port_at (write_block block r).pending) r.port_queue running
      (write_block block r)

-- One turn of the loop on what `os.read` returned.
unfoldable pub collect_block : Text → Bool → Reader → Reader
unfolding keep
collect_block [] running r = record r { is_done = true }
collect_block (c ∷ block) running r =
    if leb (r.size + length (c ∷ block)) max_log
    then keep (c ∷ block) running r
    else fail log_too_large running r

-- `wait_port`, which waits as long as the queue is empty and is called once.
abbrev pub take_port : Option ℕ → List ℕ → Reader → Reader
take_port (some port) ports r = r
take_port none [] r = r
take_port none (port ∷ ports) r = record r { port_queue = ports; port = some port }

unfoldable pub step : Event → Reader → Reader
unfolding collect_block
step take r = take_port r.port r.port_queue r
step (chunk block running) r = if r.is_done then r else collect_block block running r
step (broken running) r = if r.is_done then r else fail call_raised running r

-- `collect_output` and `wait_port` along a schedule.
unfoldable pub collect_output : List Event → Reader → Reader
unfolding step
collect_output [] r = r
collect_output (e ∷ events) r = collect_output events (step e r)
