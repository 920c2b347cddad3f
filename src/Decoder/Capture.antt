-- ===== src/Decoder/Capture.antt =====
-- `decode` of benchmark/tail-localization/decode_v3.py from the writers' files on: the files are
-- read, their rows are merged and associated.
use hp_http_server.Common.{ℕ, Bool, List, [], ◌∷◌, ◌++◌, Outcome, ok, ◌>>=◌}
use hp_http_server.Common.Int.{ℤ}
use hp_http_server.Decoder.Faults.{Fault}
use hp_http_server.Decoder.Threads.{Side, EventsFile, Expected, Recording, Row, thread_records}
use hp_http_server.Decoder.Merge.{merge_rows}
use hp_http_server.Decoder.Finish.{Setup, Link}
use hp_http_server.Decoder.Associate.{Tally, decode_rows}

-- One of the six writers: its side, the mapped thread it must be, and its file.
pub record Writer : Type 0 where
  pub side : Side
  pub expected : Expected
  pub file : EventsFile

module _ (errors : ℤ → Bool) (recording : Recording) where
  -- `streams`, all read, one after the other.
  unfoldable pub read_streams : List Writer → Outcome Fault (List Row)
  unfolding thread_records
  read_streams [] = ok []
  read_streams (w ∷ writers) = do
    rows ← thread_records errors w.side w.expected recording w.file
    rest ← read_streams writers
    ok (rows ++ rest)

  unfoldable pub decode_capture : Setup → ℕ → List Link → List Writer → Outcome Fault Tally
  unfolding read_streams merge_rows decode_rows
  decode_capture setup connections links writers = do
    rows ← read_streams writers
    decode_rows setup connections links (merge_rows rows)
