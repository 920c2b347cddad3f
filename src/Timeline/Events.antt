-- ===== src/Timeline/Events.antt =====
-- The first half of `analyze` (benchmark/tail-localization/analyze.py): the checks of the
-- metadata, of the connections and of each event, the groups of one request each, and the
-- contiguity of the request sequences.
pub mod Grouping
pub mod Attribution
use hp_http_server.Common.{
  ℕ, ◌+◌, ◌≡◌, refl, Bool, true, false, not, ◌&&◌, ◌||◌, Option, none, some, List, [], ◌∷◌, ◌++◌,
  String, str_eq, arith, ltb, leb, ◌==◌, if◌then◌else◌, any, all, map, Outcome, ok, err, ◌>>=◌,
  ◌>>◌, demand,
}
use hp_http_server.Common.Int.{ℤ, pos}
use hp_http_server.Timeline.Errors.{
  Invalid, overflow_or_active_writer, unsupported_clock, clock_identity_differs,
  duplicate_or_late_connection, unsupported_client_flow, invalid_endpoint_owner, unmapped_event,
  invalid_request_sequence, endpoint_kind_mismatch, event_owner_mismatch, request_sequence_gap,
}
use hp_http_server.Timeline.Document.{
  Scalar, int, other, missing, is_int_from, Owner, owner_eq, Key, key_eq, Endpoint, client, server,
  unknown_endpoint, Kind, write_begin, write_complete, first_byte, client_complete,
  server_first_read, parse_complete, response_enqueued, output_drained, handler_return, activity,
  unknown_kind, ClockIdentity, Metadata, Connection, Event,
}

-- Two endpoints whose values are present, not empty and equal.
unfoldable pub one_value : List (Option String) → Bool
one_value (some a ∷ some b ∷ []) = not (str_eq a "") && not (str_eq b "") && str_eq a b
one_value _ = false

unfoldable pub check_metadata : Metadata → Outcome Invalid (Unit {0})
unfolding one_value
check_metadata m = do
  demand (not (m.overflow || not m.writers_stopped)) overflow_or_active_writer
  demand (str_eq m.clock "CLOCK_MONOTONIC" && str_eq m.unit "ns") unsupported_clock
  demand (one_value (map (λ (e : ClockIdentity). e.boot_id) m.endpoints)) clock_identity_differs
  demand (one_value (map (λ (e : ClockIdentity). e.time_namespace) m.endpoints))
      clock_identity_differs

-- `connections.get(key)`
unfoldable pub find_connection : Key → List Connection → Option Connection
find_connection k [] = none
find_connection k (c ∷ known) = if key_eq k c.key then some c else find_connection k known

abbrev is_known : Key → List Connection → Bool
is_known k known = any (λ (c : Connection). key_eq k c.key) known

unfoldable pub owner_is_valid : Owner → Bool
owner_is_valid o =
    is_int_from 1 o.pid
    && is_int_from 1 o.starttime
    && is_int_from 1 o.tid
    && is_int_from 0 o.worker

-- `connections` as the dict is filled, in the order of insertion.
unfoldable pub check_connections :
    List Connection → List Connection → Outcome Invalid (List Connection)
unfolding owner_is_valid
check_connections known [] = ok known
check_connections known (c ∷ rest) = do
  demand (not (is_known c.key known || not c.frozen_before_warmup)) duplicate_or_late_connection
  demand (not (not c.one_inflight || c.reconnect)) unsupported_client_flow
  demand (owner_is_valid c.server && owner_is_valid c.client) invalid_endpoint_owner
  check_connections (known ++ c ∷ []) rest

-- `endpoint_kinds.get(endpoint, set())`, as a membership test.
unfoldable pub belongs : Endpoint → Kind → Bool
belongs client write_begin = true
belongs client write_complete = true
belongs client first_byte = true
belongs client client_complete = true
belongs client activity = true
belongs server server_first_read = true
belongs server parse_complete = true
belongs server response_enqueued = true
belongs server output_drained = true
belongs server handler_return = true
belongs server activity = true
belongs _ _ = false

-- `connection[endpoint]`; an endpoint that is unknown has been rejected before.
unfoldable pub owner_at : Connection → Endpoint → Owner
owner_at c client = c.client
owner_at c server = c.server
owner_at c unknown_endpoint = c.server

-- An event that has passed the checks, with the integers that they found.
pub record Placed : Type 0 where
  pub event : Event
  pub sequence : ℕ
  pub time : ℕ

unfoldable pub int_from : ℕ → Scalar → Option ℕ
int_from low (int (pos n)) = if leb low n then some n else none
int_from low _ = none

unfoldable pub or_raise {ℓ} : {A : Type ℓ} → Option A → Invalid → Outcome Invalid A
or_raise none e = err e
or_raise (some a) e = ok a

unfoldable pub check_event : List Connection → Event → Outcome Invalid Placed
unfolding int_from or_raise belongs owner_at find_connection
check_event known e = do
  connection ← or_raise (find_connection e.key known) unmapped_event
  time ← or_raise e.time_ns unmapped_event
  sequence ← or_raise (int_from 1 e.request_sequence) invalid_request_sequence
  demand (belongs e.endpoint e.kind) endpoint_kind_mismatch
  demand (owner_eq e.owner (owner_at connection e.endpoint)) event_owner_mismatch
  ok (record { event = e; sequence = sequence; time = time })

-- `grouped`: the events of one connection and request sequence, in the order of arrival.
pub record Group : Type 0 where
  pub key : Key
  pub sequence : ℕ
  pub events : List Placed

unfoldable pub add_to_group : Placed → List Group → List Group
add_to_group p [] = record { key = p.event.key; sequence = p.sequence; events = p ∷ [] } ∷ []
add_to_group p (g ∷ groups) =
    if key_eq p.event.key g.key && p.sequence == g.sequence
    then record g { events = g.events ++ p ∷ [] } ∷ groups
    else g ∷ add_to_group p groups

-- `sequences`: the set of request sequences of each connection.
pub record Seen : Type 0 where
  pub key : Key
  pub values : List ℕ

unfoldable pub add_value : ℕ → List ℕ → List ℕ
add_value n values = if any (λ v. v == n) values then values else n ∷ values

unfoldable pub add_sequence : Key → ℕ → List Seen → List Seen
unfolding add_value
add_sequence k n [] = record { key = k; values = n ∷ [] } ∷ []
add_sequence k n (s ∷ seen) =
    if key_eq k s.key
    then record s { values = add_value n s.values } ∷ seen
    else s ∷ add_sequence k n seen

pub record Collected : Type 0 where
  pub groups : List Group
  pub sequences : List Seen

unfoldable pub collect : Placed → Collected → Collected
unfolding add_to_group add_sequence
collect p c = record {
  groups = add_to_group p c.groups;
  sequences = add_sequence p.event.key p.sequence c.sequences;
}

unfoldable pub check_events : List Connection → Collected → List Event → Outcome Invalid Collected
unfolding check_event collect
check_events known c [] = ok c
check_events known c (e ∷ rest) = do
  placed ← check_event known e
  check_events known (collect placed c) rest

-- `sorted` on the values of a set, and the test of neighbours.
unfoldable pub insert_value : ℕ → List ℕ → List ℕ
insert_value n [] = n ∷ []
insert_value n (m ∷ values) = if leb n m then n ∷ m ∷ values else m ∷ insert_value n values

unfoldable pub sorted_values : List ℕ → List ℕ
unfolding insert_value
sorted_values [] = []
sorted_values (n ∷ values) = insert_value n (sorted_values values)

unfoldable pub is_contiguous : List ℕ → Bool
is_contiguous [] = true
is_contiguous (left ∷ []) = true
is_contiguous (left ∷ right ∷ rest) = right == left + 1 && is_contiguous (right ∷ rest)

unfoldable pub check_gaps : List Seen → Outcome Invalid (Unit {0})
unfolding sorted_values is_contiguous
check_gaps seen =
    demand (all (λ (s : Seen). is_contiguous (sorted_values s.values)) seen) request_sequence_gap
