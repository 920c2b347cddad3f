-- ===== src/Timeline/Rows.antt =====
-- The second half of `analyze` (benchmark/tail-localization/analyze.py): the row of one request.
use hp_http_server.Common.{
  ℕ, Bool, true, false, not, ◌&&◌, Option, some, List, [], ◌∷◌, ◌++◌, ltb, leb, ◌==◌, if◌then◌else◌,
  any, Outcome, ok, err, ◌>>=◌, ◌>>◌, demand,
}
use hp_http_server.Common.Int.{ℤ, pos, sub_ℕ, ◌-ℤ◌, leb_ℤ}
use hp_http_server.Timeline.Errors.{
  Invalid, duplicate_request_event, missing_boundary_evidence, missing_interior_event,
  local_event_order, body_not_verified,
}
use hp_http_server.Timeline.Intervals.{Interval, intersection_duration}
use hp_http_server.Timeline.Document.{
  Key, key_eq, Kind, kind_eq, write_begin, write_complete, first_byte, client_complete,
  server_first_read, parse_complete, response_enqueued, output_drained, handler_return, activity,
  Metadata, Boundary, active_at_recording_start, active_at_recording_end, other_reason,
}
use hp_http_server.Timeline.Events.{Placed, Group}

-- `point` in the order of insertion, and `activities`.
pub record Points : Type 0 where
  pub point : List Placed
  pub activities : List Interval

abbrev pub has_kind : Kind → List Placed → Bool
has_kind k point = any (λ (p : Placed). kind_eq k p.event.kind) point

unfoldable pub take_points : Points → List Placed → Outcome Invalid Points
take_points s [] = ok s
take_points s (p ∷ rest) = elim (kind_eq p.event.kind activity) [
  | true ↦
      take_points (record s { activities = s.activities ++ (p.time, p.event.end_ns) ∷ [] }) rest
  | false ↦ do
    demand (not (has_kind p.event.kind s.point)) duplicate_request_event
    take_points (record s { point = s.point ++ p ∷ [] }) rest
]

abbrev pub client_order : List Kind
client_order = write_begin ∷ write_complete ∷ first_byte ∷ client_complete ∷ []

abbrev pub server_order : List Kind
server_order =
    server_first_read ∷ parse_complete ∷ response_enqueued ∷ output_drained ∷ handler_return ∷ []

abbrev pub required : List Kind
required = client_order ++ server_order

-- `[kind for kind in required if kind not in point]`
unfoldable pub missing_kinds : List Placed → List Kind → List Kind
missing_kinds point [] = []
missing_kinds point (k ∷ kinds) =
    let rest = missing_kinds point kinds in if has_kind k point then rest else k ∷ rest

-- `times[kind]`; the kinds that are looked up are all there.
unfoldable pub time_of : List Placed → Kind → ℕ
time_of [] k = 0
time_of (p ∷ point) k = if kind_eq k p.event.kind then p.time else time_of point k

unfoldable pub in_order : List Placed → List Kind → Bool
unfolding time_of
in_order point [] = true
in_order point (left ∷ []) = true
in_order point (left ∷ right ∷ rest) =
    not (ltb (time_of point right) (time_of point left)) && in_order point (right ∷ rest)

-- `complete.get("content_length_verified")` and `complete.get("body_verified")`
unfoldable pub is_verified : List Placed → Bool
is_verified [] = false
is_verified (p ∷ point) =
    if kind_eq client_complete p.event.kind
    then p.event.content_length_verified && p.event.body_verified
    else is_verified point

-- `left < right` where an absent `left` stands for infinity or an absent `right` for -1.
abbrev pub both_before : Option ℕ → Option ℕ → Bool
both_before (some a) (some b) = ltb a b
both_before _ _ = false

unfoldable pub explains : Metadata → Boundary → Bool
explains m b = elim b.reason [
  | active_at_recording_start ↦ both_before b.active_start_ns m.recording_start_ns
  | active_at_recording_end ↦ both_before m.recording_end_ns b.active_end_ns
  | other_reason ↦ false
]

unfoldable pub boundaries_of : Key → ℕ → List Boundary → List Boundary
boundaries_of k n [] = []
boundaries_of k n (b ∷ rest) =
    let others = boundaries_of k n rest in
    if key_eq b.key k && b.request_sequence == n then b ∷ others else others

unfoldable pub check_boundary : Metadata → List Boundary → Outcome Invalid (Unit {0})
unfolding explains
check_boundary m (b ∷ []) = demand (explains m b) missing_interior_event
check_boundary m _ = err missing_boundary_evidence

pub data Phase : Type 0 where
  measurement boundary : Phase

-- The measures of a complete request: signed nanoseconds.
pub record Spans : Type 0 where
  pub raw_latency_ns : ℤ
  pub slow : Bool
  pub client_submit_ns : ℤ
  pub write_complete_to_server_read_ns : ℤ
  pub server_read_to_drained_ns : ℤ
  pub drained_to_client_complete_ns : ℤ
  pub activity_union_in_request_ns : ℤ
  pub residual_unknown_ns : ℤ
  pub phase : Phase

pub data Classification : Type 0 where
  boundary_unknown : List Kind → Classification
  complete : Spans → Classification

pub record Row : Type 0 where
  pub key : Key
  pub sequence : ℕ
  pub classification : Classification

-- `total >= 50_000_000`
abbrev pub slow_limit : ℤ
slow_limit = pos 50_000_000

unfoldable pub phase_of : Metadata → List Placed → Phase
unfolding time_of
phase_of m point =
    if leb m.measurement_start_ns (time_of point write_begin)
      && leb (time_of point client_complete) m.measurement_end_ns
    then measurement
    else boundary

-- `item.update(...)`, with the busy time that both calls of `intersection_duration` return.
unfoldable pub measure : Metadata → List Placed → ℕ → Spans
unfolding time_of phase_of
measure m point busy =
    let at = λ (k : Kind). time_of point k in
    let total = sub_ℕ (at client_complete) (at write_begin) in
    record {
      raw_latency_ns = total;
      slow = leb_ℤ slow_limit total;
      client_submit_ns = sub_ℕ (at write_complete) (at write_begin);
      write_complete_to_server_read_ns = sub_ℕ (at server_first_read) (at write_complete);
      server_read_to_drained_ns = sub_ℕ (at output_drained) (at server_first_read);
      drained_to_client_complete_ns = sub_ℕ (at client_complete) (at output_drained);
      activity_union_in_request_ns = pos busy;
      residual_unknown_ns = total -ℤ pos busy;
      phase = phase_of m point;
    }

unfoldable pub spans : Metadata → Points → Outcome Invalid Spans
unfolding measure
spans m s = do
  busy ←
      intersection_duration s.activities (time_of s.point write_begin)
        (time_of s.point client_complete)
  ok (measure m s.point busy)

unfoldable pub classify :
    Metadata → List Boundary → Key → ℕ → Points → Outcome Invalid Classification
unfolding missing_kinds boundaries_of check_boundary in_order is_verified spans
classify m boundaries k n s = elim (missing_kinds s.point required) [
  | kind ∷ kinds ↦ do
    check_boundary m (boundaries_of k n boundaries)
    ok (boundary_unknown (kind ∷ kinds))
  | [] ↦ do
    demand (in_order s.point client_order && in_order s.point server_order) local_event_order
    demand (is_verified s.point) body_not_verified
    measured ← spans m s
    ok (complete measured)
]

unfoldable pub row_of : Metadata → List Boundary → Group → Outcome Invalid Row
unfolding take_points classify
row_of m boundaries g = do
  s ← take_points (record { point = []; activities = [] }) g.events
  c ← classify m boundaries g.key g.sequence s
  ok (record { key = g.key; sequence = g.sequence; classification = c })

unfoldable pub rows_of : Metadata → List Boundary → List Group → Outcome Invalid (List Row)
unfolding row_of
rows_of m boundaries [] = ok []
rows_of m boundaries (g ∷ groups) = do
  row ← row_of m boundaries g
  rows ← rows_of m boundaries groups
  ok (row ∷ rows)
