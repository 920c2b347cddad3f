-- ===== src/Deployment/Streams.antt =====
-- The two readers of ServerProcess in scripts/verify_deployment.py, `collect`, which share the errors and
-- the flag `forced`, and `event`, which takes lines of the standard output from their queue.
pub mod Bounds
pub mod First
use hp_http_server.Common.{
  ℕ, ◌+◌, Bool, true, false, not, ◌||◌, Option, none, some, List, [], ◌∷◌, ◌++◌, length, leb, ltb,
  ◌==◌, if◌then◌else◌, Outcome, ok, err,
}
use hp_http_server.Common.Text.{Text, codes, is_empty, starts_with}
use hp_http_server.Deployment.Process.{Stream, stdout, stderr}

pub data Fault : Type 0 where
  too_large not_utf8 read_failed : Fault

-- `line` is what `pipe.readline` returned to a reader and `broken` a call that raised, each with whether
-- `process.poll()` is None should it be asked.
pub data Event : Type 0 where
  line : Stream → Text → Bool → Event
  broken : Stream → Bool → Event

-- One reader: its size, its lines, and whether its loop has ended.
pub record Reader : Type 0 where
  pub size : ℕ
  pub lines : List Text
  pub is_done : Bool
  pub failed : Bool

pub record Readers : Type 0 where
  pub out : Reader
  pub error : Reader
  pub events : List Text
  pub reader_errors : List Fault
  pub forced : Bool
  pub killed : Bool

abbrev pub limit : ℕ
limit = 16777216

abbrev idle : Reader
idle = record { size = 0; lines = []; is_done = false; failed = false }

abbrev pub start : Readers
start = record {
  out = idle;
  error = idle;
  events = [];
  reader_errors = [];
  forced = false;
  killed = false;
}

-- `text.rstrip('\n')`
unfoldable pub strip_newlines : Text → Text
strip_newlines [] = []
strip_newlines (c ∷ s) =
    let rest = strip_newlines s in
    if c == b'\n' then (if is_empty rest then [] else c ∷ rest) else c ∷ rest

abbrev pub reader_of : Stream → Readers → Reader
reader_of stdout r = r.out
reader_of stderr r = r.error

abbrev pub put_reader : Stream → Reader → Readers → Readers
put_reader stdout reader r = record r { out = reader }
put_reader stderr reader r = record r { error = reader }

abbrev pub put_event : Stream → Text → Readers → Readers
put_event stdout text r = record r { events = r.events ++ text ∷ [] }
put_event stderr text r = r

-- The handler at the end of `collect`.
abbrev pub fail : Stream → Fault → Bool → Reader → Readers → Readers
fail stream fault running reader r =
    record (put_reader stream (record reader { is_done = true; failed = true }) r) {
      reader_errors = r.reader_errors ++ fault ∷ [];
      forced = true;
      killed = if running then true else r.killed;
    }

module _ (decode : Text → Option Text) where
  abbrev pub keep_line : Stream → Option Text → Bool → Reader → Readers → Readers
  keep_line stream none running reader r = fail stream not_utf8 running reader r
  keep_line stream (some text) running reader r =
      put_event stream (strip_newlines text)
        (put_reader stream (record reader { lines = reader.lines ++ strip_newlines text ∷ [] }) r)

  -- One turn of the loop. The size counts the line before it is checked.
  unfoldable pub collect_line : Stream → Text → Bool → Reader → Readers → Readers
  unfolding strip_newlines
  collect_line stream [] running reader r = put_reader stream (record reader { is_done = true }) r
  collect_line stream (c ∷ raw) running reader r =
      let counted : Reader = record reader { size = reader.size + length (c ∷ raw) } in
      if leb counted.size limit
      then keep_line stream (decode (c ∷ raw)) running counted r
      else fail stream too_large running counted r

  unfoldable pub step : Event → Readers → Readers
  unfolding collect_line
  step (line stream raw running) r =
      if (reader_of stream r).is_done
      then r
      else collect_line stream raw running (reader_of stream r) r
  step (broken stream running) r =
      if (reader_of stream r).is_done
      then r
      else fail stream read_failed running (reader_of stream r) r

  unfoldable pub collect : List Event → Readers → Readers
  unfolding step
  collect [] r = r
  collect (e ∷ events) r = collect events (step e r)

pub data Late : Type 0 where
  nothing_came deadline_passed : Late

-- `event`: the lines that the queue gives until a `get` times out, each with whether the deadline is still
-- ahead after it. The lines behind the one that is returned are left in the queue.
unfoldable pub event : Text → List (Text × Bool) → Outcome Late (Text × List (Text × Bool))
event prefix [] = err nothing_came
event prefix ((text, in_time) ∷ queue) =
    let rest = event prefix queue in
    if starts_with text prefix
    then ok (text, queue)
    else if in_time
    then rest
    else err deadline_passed
