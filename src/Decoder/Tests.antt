-- ===== src/Decoder/Tests.antt =====
-- A capture of one connection with one complete request, decoded, and the theorems at it.
use hp_http_server.Common.{
  ℕ, suc, ◌+◌, ◌≡◌, refl, true, false, some, List, [], ◌∷◌, ◌++◌, ok, err, Outcome,
}
use hp_http_server.Common.Int.{ℤ, pos, ◌-ℤ◌, sub_ℕ}
use hp_http_server.Timeline.Intervals.{intersection_duration}
use hp_http_server.Timeline.Document.{int, Owner, key_eq, scalar_eq, owner_eq}
use hp_http_server.Timeline.Rows.{complete, measurement}
use hp_http_server.Timeline.Analyze.{analyze}
use hp_http_server.Decoder.Faults.{Fault, origin_gap}
use hp_http_server.Common.{length}
use hp_http_server.Decoder.Wire.{WireRecord}
use hp_http_server.Decoder.Threads.{
  client, server, Header, EventsFile, Expected, Recording, Row, thread_records,
}
use hp_http_server.Decoder.Threads.Recorded.{IsRecorded, thread_records-IsRecorded}
use hp_http_server.Decoder.Merge.{merge_rows}
use hp_http_server.Decoder.Group.{begin_of, add_row, is_complete}
use hp_http_server.Decoder.Finish.{Setup, Link, Request, Phase, finish}
use hp_http_server.Decoder.Associate.{Tally, put_group, delete_group, add_ending, decode_rows}
use hp_http_server.Decoder.Associate.Progress.{origins_of, counting, decode_rows-origins}
use hp_http_server.Decoder.Associate.Order.{Ordered, decode_rows-Ordered}

abbrev setup : Setup
setup = record {
  clocks =
      record { boot_id = some "b"; time_namespace = some "4026531834" }
      ∷ record { boot_id = some "b"; time_namespace = some "4026531834" }
      ∷ [];
  measurement_start_ns = 50;
  measurement_end_ns = 1000;
  requests_per_connection = 0;
}

abbrev owner : ℕ → Owner
owner n = record {
  pid = int (pos n);
  starttime = int (pos 7);
  tid = int (pos (suc n));
  worker = int (pos 0);
}

abbrev links : ℕ → List Link
links reserved =
    record {
      connection = record {
        key = record { run_id = "run-1"; four_tuple = "127.0.0.1" ∷ "9000" ∷ []; lifetime = 1 };
        frozen_before_warmup = true;
        one_inflight = true;
        reconnect = false;
        server = owner 200;
        client = owner 100;
      };
      client_index = 3;
      client_worker = 0;
      server_index = 8;
      server_worker = 2;
      reserved = reserved;
      client_stopped_ns = 1100;
    }
    ∷ []

module _ (sequence : ℕ) where
  abbrev sent : ℕ → ℕ → ℕ → ℕ → ℤ → Row
  sent time kind value flags result = record {
    timestamp = time;
    endpoint = client;
    worker = 0;
    ordinal = time;
    index = 3;
    sequence = sequence;
    kind = kind;
    value = value;
    flags = flags;
    result = result;
  }

  abbrev served : ℕ → ℕ → ℕ → Row
  served time kind value = record {
    timestamp = time;
    endpoint = server;
    worker = 2;
    ordinal = time;
    index = 8;
    sequence = sequence;
    kind = kind;
    value = value;
    flags = 0;
    result = pos 0;
  }

abbrev exchange : ℕ → ℕ → List Row
exchange n t =
    sent n t 1 60 0 (pos 0)
    ∷ sent n (t + 1) 2 60 0 (pos 0)
    ∷ served n (t + 2) 5 1
    ∷ served n (t + 3) 6 8192
    ∷ served n (t + 4) 7 60
    ∷ served n (t + 5) 8 1
    ∷ served n (t + 6) 9 1
    ∷ served n (t + 7) 10 1100
    ∷ served n (t + 8) 11 1100
    ∷ served n (t + 9) 12 1100
    ∷ served n (t + 10) 15 0
    ∷ sent n (t + 11) 3 1 0 (pos 0)
    ∷ sent n (t + 12) 4 1024 1 (pos 200)
    ∷ served n (t + 13) 16 1
    ∷ []

abbrev decoded : ℕ → List Row → Outcome Fault Tally
decoded reserved rows = decode_rows setup 1 (links reserved) rows

abbrev completed : ℕ → ℕ → Request
completed n t = record {
  connection_index = 0;
  request_sequence = n;
  row = some (record {
    key = record { run_id = "run-1"; four_tuple = "127.0.0.1" ∷ "9000" ∷ []; lifetime = 1 };
    sequence = n;
    classification = complete (record {
      raw_latency_ns = pos 12;
      slow = false;
      client_submit_ns = pos 1;
      write_complete_to_server_read_ns = pos 3;
      server_read_to_drained_ns = pos 6;
      drained_to_client_complete_ns = pos 2;
      activity_union_in_request_ns = pos 10;
      residual_unknown_ns = pos 2;
      phase = measurement;
    });
  });
  client_write_begin_ns = t;
  client_complete_ns = t + 12;
  prior_idle = [];
  phase = Phase.measurement;
}

abbrev tally : Tally
tally = record {
  idle_groups = 0;
  boundaries = [];
  requests = completed 1 100 ∷ completed 2 200 ∷ [];
}

abbrev two_exchanges : List Row
two_exchanges = exchange 1 100 ++ exchange 2 200

decoded-two_exchanges : decoded 2 two_exchanges ≡ ok tally
unfolding decode_rows add_row is_complete begin_of finish put_group delete_group add_ending analyze
    ◌-ℤ◌ sub_ℕ key_eq owner_eq scalar_eq intersection_duration
decoded-two_exchanges = refl

-- The first request of a connection has the sequence 1.
skipped_sequence_refused : decoded 2 (exchange 2 100) ≡ err origin_gap
unfolding decode_rows
skipped_sequence_refused = refl

decode_rows-origins_example : origins_of (links 2) 0 two_exchanges ≡ counting 0 2
decode_rows-origins_example =
    decode_rows-origins setup 1 (links 2) two_exchanges tally 0 _ decoded-two_exchanges refl

decode_rows-Ordered_example : Ordered tally.requests
decode_rows-Ordered_example =
    decode_rows-Ordered setup 1 (links 2) two_exchanges tally decoded-two_exchanges

decode_rows-merge_rows :
    decode_rows setup 1 (links 2) (merge_rows (exchange 2 200 ++ exchange 1 100)) ≡ ok tally
unfolding decode_rows add_row is_complete begin_of finish put_group delete_group add_ending analyze
    ◌-ℤ◌ sub_ℕ key_eq owner_eq scalar_eq intersection_duration merge_rows
decode_rows-merge_rows = refl

abbrev recording : Recording
recording = record { start_ns = 40; end_ns = 1200 }

abbrev writer : Expected
writer = record { pid = 200; namespace_tid = 203; starttime = 7; worker = 2 }

abbrev wire : ℕ → ℕ → ℕ → WireRecord
wire time kind value = record {
  timestamp = time;
  value = value;
  connection = 8;
  sequence = 1;
  kind = kind;
  flags = 0;
  result = pos 0;
}

abbrev header : Header
header = record {
  magic = "S4TAIL02";
  header_size = 64;
  record_size = 32;
  flags = 1;
  count = 2;
  capacity = 524288;
  pid = 200;
  tid = 203;
  starttime = 7;
  first = 100;
  last = 130;
}

abbrev file : EventsFile
file = record { size = 128; header = some header; records = wire 100 5 1 ∷ wire 130 16 1 ∷ [] }

abbrev rows_of_file : List Row
rows_of_file =
    record (served 1 100 5 1) { ordinal = 0 } ∷ record (served 1 130 16 1) { ordinal = 1 } ∷ []

thread_records-file : thread_records (λ _. false) server writer recording file ≡ ok rows_of_file
unfolding thread_records
thread_records-file = refl

thread_records-IsRecorded_example :
    (h : Header) × (file.header ≡ some h)
    × (length rows_of_file ≡ h.count)
    × IsRecorded (λ _. false) server writer recording 0 0 rows_of_file
thread_records-IsRecorded_example =
    thread_records-IsRecorded (λ _. false) server writer recording file rows_of_file
      thread_records-file
