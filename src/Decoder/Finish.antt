-- ===== src/Decoder/Finish.antt =====
-- `finish` of `decode` in benchmark/tail-localization/decode_v3.py: what becomes of a group.
pub mod Points
pub mod Evidence
use hp_http_server.Common.{
  ℕ, ◌/◌, ◌%◌, ◌^◌, Bool, true, false, not, ◌&&◌, Option, none, some, List, [], ◌∷◌, ◌++◌, ltb, leb,
  ◌==◌, if◌then◌else◌, any, map, Outcome, ok, err, ◌>>=◌, ◌>>◌, demand,
}
use mathlib.Core.List.{head?}
use hp_http_server.Common.Int.{ℤ, pos}
use hp_http_server.Timeline.Errors.{Invalid}
use hp_http_server.Timeline.Document.{
  int, Endpoint, Kind, kind_eq, write_begin, write_complete, first_byte, client_complete,
  server_first_read, parse_complete, response_enqueued, output_drained, handler_return, activity,
  ClockIdentity, Connection, Event, Document, Owner,
}
use hp_http_server.Timeline.Rows
use hp_http_server.Timeline.Analyze.{analyze}
use hp_http_server.Decoder.Faults.{
  Fault, unclosed_scope, endpoint_without_origin, missing_origin, missing_interior_endpoints,
  client_order_invalid, server_order_invalid, body_unverified, byte_accounting_differs, timeline,
}
use hp_http_server.Decoder.Wire.{int_is}
use hp_http_server.Decoder.Threads.{client, server, side_eq}
use hp_http_server.Decoder.Group.{Scope, Group, point_at, has_point, point_kinds}
unfoldable pub use hp_http_server.Decoder.Finish.Points.{
  at, first_from, handler_of, missing_points, missing_of,
}
unfoldable pub use hp_http_server.Decoder.Finish.Evidence.{
  normalize_event, activity_event, events_of,
}

-- What `decode` has prepared of the sample before it reads the rows.
pub record Setup : Type 0 where
  pub clocks : List ClockIdentity
  pub measurement_start_ns : ℕ
  pub measurement_end_ns : ℕ
  pub requests_per_connection : ℕ

-- One selected connection: as the timeline has it, and the client's record of how it ended.
pub record Link : Type 0 where
  pub connection : Connection
  pub client_index : ℕ
  pub client_worker : ℕ
  pub server_index : ℕ
  pub server_worker : ℕ
  pub reserved : ℕ
  pub client_stopped_ns : ℕ

pub data Phase : Type 0 where
  recovery measurement warmup boundary : Phase

pub record Request : Type 0 where
  pub connection_index : ℕ
  pub request_sequence : ℕ
  pub row : Option Rows.Row
  pub client_write_begin_ns : ℕ
  pub client_complete_ns : ℕ
  pub prior_idle : List Scope
  pub phase : Phase

pub record Pending : Type 0 where
  pub connection_index : ℕ
  pub request_sequence : ℕ
  pub missing : List ℕ

-- What a finished group turns out to be.
pub data Ending : Type 0 where
  idle : Ending
  pending : Pending → Ending
  complete : Request → Ending

-- The client's counter: the low 32 bits count its requests, the high ones say that one is pending.
abbrev pub last_sequence : ℕ → ℕ
last_sequence reserved = reserved % 2 ^ 32

abbrev pub is_pending : ℕ → Bool
is_pending reserved = not (reserved / 2 ^ 32 == 0)

abbrev pub is_prior : ℕ → Scope → Bool
is_prior first_read s = side_eq s.endpoint server && ltb s.end first_read

unfoldable pub select_scopes : (Scope → Bool) → List Scope → List Scope
select_scopes p [] = []
select_scopes p (s ∷ scopes) = let rest = select_scopes p scopes in if p s then s ∷ rest else rest

unfoldable pub lift_timeline {ℓ} : {A : Type ℓ} → Outcome Invalid A → Outcome Fault A
lift_timeline (ok a) = ok a
lift_timeline (err e) = err (timeline e)

unfoldable pub is_ascending : List ℕ → Bool
is_ascending [] = true
is_ascending (a ∷ []) = true
is_ascending (a ∷ b ∷ rest) = leb a b && is_ascending (b ∷ rest)

abbrev pub is_body : Option (ℕ × ℤ × ℕ) → Bool
is_body none = false
is_body (some (value, result, flags)) = value == 1024 && int_is result 200 && flags == 1

abbrev pub is_count : ℕ → Option ℕ → Bool
is_count n none = false
is_count n (some m) = n == m

module _ (setup : Setup) (index : ℕ) (link : Link) (sequence : ℕ) (g : Group) where
  unfoldable pub document_of : ℕ → ℕ → List Scope → Document
  unfolding events_of
  document_of first_read handler scopes = record {
    metadata = record {
      overflow = false;
      writers_stopped = true;
      clock = "CLOCK_MONOTONIC";
      unit = "ns";
      endpoints = setup.clocks;
      measurement_start_ns = setup.measurement_start_ns;
      measurement_end_ns = setup.measurement_end_ns;
      recording_start_ns = none;
      recording_end_ns = none;
    };
    connections = link.connection ∷ [];
    events = events_of link.connection sequence g first_read handler scopes;
    request_boundaries = [];
  }

  unfoldable pub phase_of : Phase
  unfolding at
  phase_of =
      if not (setup.requests_per_connection == 0)
      then recovery
      else if leb setup.measurement_start_ns (at 1 g) && ltb (at 4 g) setup.measurement_end_ns
      then measurement
      else if ltb (at 4 g) setup.measurement_start_ns
      then warmup
      else boundary

  unfoldable pub finish_complete : ℕ → ℕ → Outcome Fault Ending
  unfolding at is_ascending select_scopes document_of lift_timeline phase_of
  finish_complete first_read handler = do
    demand (is_ascending (at 1 g ∷ at 2 g ∷ at 3 g ∷ at 4 g ∷ [])) client_order_invalid
    demand (is_ascending (first_read ∷ at 8 g ∷ at 9 g ∷ at 10 g ∷ at 15 g ∷ handler ∷ []))
        server_order_invalid
    demand (is_body g.body) body_unverified
    demand (is_count g.sent_bytes g.enqueue_bytes) byte_accounting_differs
    let used = select_scopes (λ s. not (is_prior first_read s)) g.intervals
    report ← lift_timeline (analyze (document_of first_read handler used))
    ok (
        complete (record {
          connection_index = index;
          request_sequence = sequence;
          row = head? report.requests;
          client_write_begin_ns = at 1 g;
          client_complete_ns = at 4 g;
          prior_idle = select_scopes (is_prior first_read) g.intervals;
          phase = phase_of;
        }))

  -- Some endpoint is missing: this is only accepted of the request that was under way at the stop.
  unfoldable pub finish_missing : Bool → List ℕ → Outcome Fault Ending
  finish_missing at_stop missing = do
    demand
        (at_stop
          && sequence == last_sequence link.reserved
          && is_pending link.reserved
          && leb setup.measurement_end_ns link.client_stopped_ns)
        missing_interior_endpoints
    ok (
        pending
          (record { connection_index = index; request_sequence = sequence; missing = missing }))

  unfoldable pub finish_request : Bool → List ℕ → Option ℕ → Outcome Fault Ending
  unfolding missing_of finish_complete finish_missing
  finish_request at_stop (first_read ∷ reads) (some handler) = elim (missing_of g) [
    | [] ↦ finish_complete first_read handler
    | k ∷ missing ↦ finish_missing at_stop (k ∷ missing)
  ]
  finish_request at_stop _ _ = finish_missing at_stop (missing_of g)

  unfoldable pub finish : Bool → Outcome Fault Ending
  unfolding finish_request handler_of
  finish at_stop = do
    demand (elim g.open_calls [ [] ↦ true | c ∷ calls ↦ false ]) unclosed_scope
    if not (has_point g.points 1) && elim g.positive_reads [ [] ↦ true | t ∷ reads ↦ false ]
        then (do
          demand (not (any (has_point g.points) (2 ∷ 3 ∷ 4 ∷ 8 ∷ 9 ∷ 10 ∷ 15 ∷ [])))
              endpoint_without_origin
          ok idle)
        else (do
          demand (has_point g.points 1) missing_origin
          finish_request at_stop g.positive_reads (handler_of g))
