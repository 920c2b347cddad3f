-- ===== src/Timeline/Tests.antt =====
-- Runs of `analyze` on one captured request, and the theorems at it.
use hp_http_server.Common.{
  ℕ, suc, ◌+◌, ◌-◌, ◌≡◌, refl, true, false, some, List, [], ◌∷◌, ◌++◌, arith, any, All, ok, err,
}
use hp_http_server.Common.Int.{pos, negsuc, ◌-ℤ◌, sub_ℕ}
use hp_http_server.Timeline.Errors.{event_owner_mismatch}
use hp_http_server.Timeline.Intervals.{Interval, interval_union, intersection_duration}
use hp_http_server.Timeline.Intervals.Coverage.{covered, covered_points}
use hp_http_server.Timeline.Intervals.Duration.{
  IsSeparated, interval_union-covers, intersection_duration-eq-covered_points,
}
use hp_http_server.Timeline.Document.{
  int, Owner, Key, key_eq, scalar_eq, owner_eq, Endpoint, client, server, Kind, write_begin,
  write_complete, first_byte, client_complete, server_first_read, parse_complete, response_enqueued,
  output_drained, handler_return, activity, Metadata, Event, Document,
}
use hp_http_server.Timeline.Events.Attribution.{IsAttributed, is_of}
use hp_http_server.Timeline.Rows.{Row, complete, measurement}
use hp_http_server.Timeline.Analyze.{Report, analyze}
use hp_http_server.Timeline.Analyze.Latency.{IsSoundRow, analyze-IsSoundRow}
use hp_http_server.Timeline.Analyze.Sequences.{
  has_row, DistinctRows, analyze-IsAttributed, analyze-rows_iff_events, analyze_no_gap,
}

abbrev busy : List Interval
busy = (40, 60) ∷ (10, 30) ∷ (20, 35) ∷ []

union_of_busy : interval_union busy ≡ ok ((10, 35) ∷ (40, 60) ∷ [])
unfolding interval_union
union_of_busy = refl

duration_of_busy : intersection_duration busy 15 50 ≡ ok 30
unfolding intersection_duration
duration_of_busy = refl

abbrev owner : ℕ → Owner
owner n = record {
  pid = int (pos n);
  starttime = int (pos 7);
  tid = int (pos (suc n));
  worker = int (pos 0);
}

abbrev key : Key
key = record { run_id = "run-1"; four_tuple = "127.0.0.1" ∷ "9000" ∷ []; lifetime = 1 }

abbrev event : ℕ → Endpoint → ℕ → Kind → ℕ → ℕ → Event
event n endpoint process kind time end = record {
  key = key;
  request_sequence = int (pos n);
  time_ns = some time;
  endpoint = endpoint;
  kind = kind;
  owner = owner process;
  end_ns = end;
  content_length_verified = true;
  body_verified = true;
}

abbrev request : ℕ → ℕ → List Event
request n start =
    event n client 100 write_begin start 0
    ∷ event n server 200 server_first_read (start - 1) 0
    ∷ event n client 100 write_complete (start + 2) 0
    ∷ event n server 200 activity (start + 4) (start + 6)
    ∷ event n server 200 parse_complete (start + 5) 0
    ∷ event n server 200 response_enqueued (start + 7) 0
    ∷ event n server 200 output_drained (start + 8) 0
    ∷ event n client 100 activity (start + 5) (start + 50)
    ∷ event n client 100 first_byte (start + 9) 0
    ∷ event n server 200 handler_return (start + 10) 0
    ∷ event n client 100 client_complete (start + 12) 0
    ∷ []

abbrev metadata : Metadata
metadata = record {
  overflow = false;
  writers_stopped = true;
  clock = "CLOCK_MONOTONIC";
  unit = "ns";
  endpoints =
      record { boot_id = some "b"; time_namespace = some "4026531834" }
      ∷ record { boot_id = some "b"; time_namespace = some "4026531834" }
      ∷ [];
  measurement_start_ns = 50;
  measurement_end_ns = 1000;
  recording_start_ns = some 0;
  recording_end_ns = some 2000;
}

abbrev document : List Event → Document
document events = record {
  metadata = metadata;
  connections =
      record {
        key = key;
        frozen_before_warmup = true;
        one_inflight = true;
        reconnect = false;
        server = owner 200;
        client = owner 100;
      }
      ∷ [];
  events = events;
  request_boundaries = [];
}

abbrev row : ℕ → Row
row n = record {
  key = key;
  sequence = n;
  classification = complete (record {
    raw_latency_ns = pos 12;
    slow = false;
    client_submit_ns = pos 2;
    write_complete_to_server_read_ns = negsuc 2;
    server_read_to_drained_ns = pos 9;
    drained_to_client_complete_ns = pos 4;
    activity_union_in_request_ns = pos 8;
    residual_unknown_ns = pos 4;
    phase = measurement;
  });
}

abbrev three : List Event
three = request 2 200 ++ request 1 100 ++ request 3 300

abbrev report : Report
report = record {
  requests = row 2 ∷ row 1 ∷ row 3 ∷ [];
  slow_requests = [];
  measurement_slow_requests = [];
}

analyze-three : analyze (document three) ≡ ok report
unfolding analyze ◌-ℤ◌ sub_ℕ key_eq owner_eq scalar_eq intersection_duration
analyze-three = refl

-- The server's events under the client's owner are refused.
foreign_owner_refused :
    analyze (document (event 1 server 100 parse_complete 5 0 ∷ [])) ≡ err event_owner_mismatch
unfolding analyze key_eq owner_eq scalar_eq
foreign_owner_refused = refl

interval_union-covers_example :
    (merged : List Interval) × (interval_union busy ≡ ok merged)
    × ((t : ℕ) → covered merged t ≡ covered busy t)
    × IsSeparated merged
interval_union-covers_example = interval_union-covers busy refl

intersection_duration-eq-covered_points_example :
    intersection_duration busy 15 50 ≡ ok (covered_points busy 15 50)
intersection_duration-eq-covered_points_example =
    intersection_duration-eq-covered_points busy 15 50 refl

analyze-IsSoundRow_example : All (λ (r : Row). IsSoundRow r.classification) report.requests
analyze-IsSoundRow_example = analyze-IsSoundRow (document three) report analyze-three

analyze-IsAttributed_example : All (IsAttributed (document three).connections) three
analyze-IsAttributed_example = analyze-IsAttributed (document three) report analyze-three

analyze-rows_iff_events_example :
    ((k : Key) (n : ℕ) → has_row k n report.requests ≡ any (is_of k n) three)
    × DistinctRows report.requests
analyze-rows_iff_events_example = analyze-rows_iff_events (document three) report analyze-three

analyze_no_gap_example : has_row key 2 report.requests ≡ true
unfolding key_eq
analyze_no_gap_example =
    analyze_no_gap (document three) report key 1 3 2 analyze-three refl refl (omega arith)
      (omega arith)
