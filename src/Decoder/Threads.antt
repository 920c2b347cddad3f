-- ===== src/Decoder/Threads.antt =====
-- `thread_records` of benchmark/tail-localization/decode_v3.py: the rows of one writer's file. The
-- generator is run to its end: a fault ends `decode` wherever it is raised. The blocks of at most
-- 2048 records that it reads are one list, and the digest and the catalog entry are left out.
pub mod Recorded
use hp_http_server.Common.{
  ℕ, suc, zero, ◌+◌, ◌*◌, Bool, ◌&&◌, List, [], ◌∷◌, ◌++◌, String, str_eq, Option, none, some, ltb,
  leb, ◌==◌, if◌then◌else◌, Outcome, ok, err, ◌>>=◌, ◌>>◌, demand,
}
use hp_http_server.Common.Int.{ℤ}
use hp_http_server.Decoder.Faults.{
  Fault, short_header, schema_invalid, count_mismatch, identity_differs, short_block,
  clock_outside_coverage, unknown_kind_or_sequence, timestamp_bounds_mismatch,
}
use hp_http_server.Decoder.Wire.{WireRecord, is_in, client_kinds, server_kinds, validate_payload}

pub data Side : Type 0 where
  client server : Side

abbrev pub side_code : Side → ℕ
side_code client = 0
side_code server = 1

abbrev pub side_eq : Side → Side → Bool
side_eq a b = side_code a == side_code b

pub record Header : Type 0 where
  pub magic : String
  pub header_size : ℕ
  pub record_size : ℕ
  pub flags : ℕ
  pub count : ℕ
  pub capacity : ℕ
  pub pid : ℕ
  pub tid : ℕ
  pub starttime : ℕ
  pub first : ℕ
  pub last : ℕ

-- An events file: its size, its header if it has all the bytes of one, and the records behind it.
pub record EventsFile : Type 0 where
  pub size : ℕ
  pub header : Option Header
  pub records : List WireRecord

-- The thread that a file must come from, an entry of the mappings.
pub record Expected : Type 0 where
  pub pid : ℕ
  pub namespace_tid : ℕ
  pub starttime : ℕ
  pub worker : ℕ

-- The part of the sample that bounds the recording.
pub record Recording : Type 0 where
  pub start_ns : ℕ
  pub end_ns : ℕ

-- `(timestamp, endpoint, worker, ordinal, connection, sequence, kind, value, flags, result)`
pub record Row : Type 0 where
  pub timestamp : ℕ
  pub endpoint : Side
  pub worker : ℕ
  pub ordinal : ℕ
  pub index : ℕ
  pub sequence : ℕ
  pub kind : ℕ
  pub value : ℕ
  pub flags : ℕ
  pub result : ℤ

abbrev pub kinds_of : Side → List ℕ
kinds_of client = client_kinds
kinds_of server = server_kinds

-- `16*1024*1024//32`
abbrev pub writer_capacity : ℕ
writer_capacity = 524288

unfoldable pub check_header : EventsFile → Header → Expected → Outcome Fault (Unit {0})
check_header f h e = do
  demand (str_eq h.magic "S4TAIL02" && h.header_size == 64 && h.record_size == 32 && h.flags == 1)
      schema_invalid
  demand (leb h.count h.capacity && h.capacity == writer_capacity && f.size == 64 + h.count * 32)
      count_mismatch
  demand (h.pid == e.pid && h.tid == e.namespace_tid && h.starttime == e.starttime) identity_differs

-- What the loop over the records carries: the rows so far, newest last, and the clock bounds.
pub record Progress : Type 0 where
  pub previous : ℕ
  pub actual_first : ℕ
  pub actual_last : ℕ
  pub ordinal : ℕ
  pub rows : List Row

abbrev pub initial : Progress
initial = record { previous = 0; actual_first = 0; actual_last = 0; ordinal = 0; rows = [] }

module _ (errors : ℤ → Bool) (side : Side) (e : Expected) (recording : Recording) where
  unfoldable pub row_of : ℕ → WireRecord → Row
  row_of ordinal r = record {
    timestamp = r.timestamp;
    endpoint = side;
    worker = e.worker;
    ordinal = ordinal;
    index = r.connection;
    sequence = r.sequence;
    kind = r.kind;
    value = r.value;
    flags = r.flags;
    result = r.result;
  }

  unfoldable pub check_record : Progress → WireRecord → Outcome Fault Progress
  unfolding row_of validate_payload
  check_record p r = do
    demand
        (leb p.previous r.timestamp
          && leb recording.start_ns r.timestamp
          && leb r.timestamp recording.end_ns)
        clock_outside_coverage
    demand (is_in r.kind (kinds_of side) && ltb 0 r.sequence) unknown_kind_or_sequence
    validate_payload errors r.kind r.value r.flags r.result
    ok (record {
      previous = r.timestamp;
      actual_first = if p.ordinal == 0 then r.timestamp else p.actual_first;
      actual_last = r.timestamp;
      ordinal = p.ordinal + 1;
      rows = p.rows ++ row_of p.ordinal r ∷ [];
    })

  -- `while ordinal < count`, on the number of records that are left.
  unfoldable pub check_records : ℕ → Progress → List WireRecord → Outcome Fault Progress
  unfolding check_record
  check_records zero p records = ok p
  check_records (suc left) p [] = err short_block
  check_records (suc left) p (r ∷ records) = do p' ← check_record p r; check_records left p' records

  unfoldable pub read_header : Option Header → Outcome Fault Header
  read_header none = err short_header
  read_header (some h) = ok h

  unfoldable pub thread_records : EventsFile → Outcome Fault (List Row)
  unfolding check_header check_records read_header
  thread_records f = do
    h ← read_header f.header
    check_header f h e
    p ← check_records h.count initial f.records
    demand (p.actual_first == h.first && p.actual_last == h.last) timestamp_bounds_mismatch
    ok p.rows
