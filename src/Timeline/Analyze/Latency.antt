-- ===== src/Timeline/Analyze/Latency.antt =====
-- What the measures of a complete request satisfy, in every report that `analyze` returns.
use hp_http_server.Common.{
  ℕ, ◌≤◌, ◌-◌, ◌≡◌, subst, ok-injective, ◌↔◌, true, List, [], ◌∷◌, arith, All, ok, >>=-eq-ok,
}
use hp_http_server.Common.Int.{pos, ◌+ℤ◌, ◌≤ℤ◌, int_laws, sub_ℕ_of_le, sub_ℕ_mono, sub_ℕ_residual}
use hp_http_server.Timeline.Document.{
  Document, Metadata, Boundary, Key, write_begin, write_complete, client_complete,
  server_first_read, output_drained,
}
use hp_http_server.Timeline.Intervals.{intersection_duration}
use hp_http_server.Timeline.Intervals.Duration.{intersection_duration_bounded}
use hp_http_server.Timeline.Events.{Placed, Group}
use hp_http_server.Timeline.Rows.{
  Points, Spans, Classification, boundary_unknown, complete, Row, client_order, server_order,
  slow_limit, time_of, in_order, measure, take_points, spans, classify, row_of, rows_of,
}
use hp_http_server.Timeline.Analyze.{Report, analyze}
use hp_http_server.Timeline.Analyze.Stages.{stages}

pub record IsSound (s : Spans) : Type 0 where
  pub submit_nonneg : pos 0 ≤ℤ s.client_submit_ns
  pub submit_within : s.client_submit_ns ≤ℤ s.raw_latency_ns
  pub drained_nonneg : pos 0 ≤ℤ s.server_read_to_drained_ns
  pub accounted : s.activity_union_in_request_ns +ℤ s.residual_unknown_ns ≡ s.raw_latency_ns
  pub busy_nonneg : pos 0 ≤ℤ s.activity_union_in_request_ns
  pub residual_nonneg : pos 0 ≤ℤ s.residual_unknown_ns
  pub slow_iff : (s.slow ≡ true) ↔ (slow_limit ≤ℤ s.raw_latency_ns)

measure-IsSound :
    (m : Metadata) (point : List Placed) (busy : ℕ)
    → in_order point client_order ≡ true
    → in_order point server_order ≡ true
    → busy ≤ time_of point client_complete - time_of point write_begin
    → IsSound (measure m point busy)
unfolding measure in_order
measure-IsSound m point busy cl sv bound =
    let at = time_of point in
    record {
      submit_nonneg =
          rw (sub_ℕ_of_le (at write_complete) (at write_begin) (ground arith)) (omega arith);
      submit_within =
          sub_ℕ_mono (at write_complete) (at client_complete) (at write_begin) (ground arith);
      drained_nonneg =
          rw (sub_ℕ_of_le (at output_drained) (at server_first_read) (ground arith)) (omega arith);
      accounted = omega int_laws;
      busy_nonneg = omega arith;
      residual_nonneg =
          sub_ℕ_residual (at client_complete) (at write_begin) busy (ground arith) bound;
      slow_iff = ground arith;
    }

spans-IsSound :
    (m : Metadata) (p : Points) (s : Spans)
    → in_order p.point client_order ≡ true
    → in_order p.point server_order ≡ true
    → spans m p ≡ ok s
    → IsSound s
unfolding spans
spans-IsSound m p s cl sv h =
    let begin = time_of p.point write_begin in
    let end = time_of p.point client_complete in
    let (busy, e, f) = >>=-eq-ok (intersection_duration p.activities begin end) _ h in
    subst IsSound (ok-injective f) (
      measure-IsSound m p.point busy cl sv
        (intersection_duration_bounded p.activities begin end busy e))

-- A row of a complete request has sound measures; one of a cut-off request has none.
abbrev pub IsSoundRow : Classification → Type 0
IsSoundRow (boundary_unknown _) = Unit
IsSoundRow (complete s) = IsSound s

classify-IsSoundRow :
    (m : Metadata) (boundaries : List Boundary) (k : Key) (n : ℕ) (p : Points) (c : Classification)
    → classify m boundaries k n p ≡ ok c
    → IsSoundRow c
unfolding classify
classify-IsSoundRow m boundaries k n p (boundary_unknown _) h = tt
classify-IsSoundRow m boundaries k n p (complete s) h = ground (arith, spans-IsSound m p s)

row_of-IsSoundRow :
    (m : Metadata) (boundaries : List Boundary) (g : Group) (r : Row)
    → row_of m boundaries g ≡ ok r
    → IsSoundRow r.classification
unfolding row_of
row_of-IsSoundRow m boundaries g r h =
    let (p, _, h') =
      >>=-eq-ok (take_points (record { point = []; activities = [] }) g.events) _ h in
    let (c, e, f) = >>=-eq-ok (classify m boundaries g.key g.sequence p) _ h' in
    subst (λ (row : Row). IsSoundRow row.classification) (ok-injective f)
      (classify-IsSoundRow m boundaries g.key g.sequence p c e)

rows_of-IsSoundRow :
    (m : Metadata) (boundaries : List Boundary) (groups : List Group) (rows : List Row)
    → rows_of m boundaries groups ≡ ok rows
    → All (λ (r : Row). IsSoundRow r.classification) rows
unfolding rows_of
rows_of-IsSoundRow m boundaries [] rows h =
    subst (All (λ (r : Row). IsSoundRow r.classification)) (ok-injective h) tt
rows_of-IsSoundRow m boundaries (g ∷ groups) rows h =
    let (row, e, h') = >>=-eq-ok (row_of m boundaries g) _ h in
    let (rest, e', f) = >>=-eq-ok (rows_of m boundaries groups) _ h' in
    subst (All (λ (r : Row). IsSoundRow r.classification)) (ok-injective f)
      (row_of-IsSoundRow m boundaries g row e, rows_of-IsSoundRow m boundaries groups rest e')

-- In every report, the row of each complete request has sound measures (`IsSound`): the
-- submit time and the server's time are not negative, and the submit time is at most the latency; busy and residual time are not negative and add up to the
-- latency; and the request is marked slow exactly when the latency is at least 50 ms.
pub analyze-IsSoundRow :
    (d : Document) (r : Report)
    → analyze d ≡ ok r
    → All (λ (row : Row). IsSoundRow row.classification) r.requests
analyze-IsSoundRow d r h =
    let s = stages d r h in
    rows_of-IsSoundRow d.metadata d.request_boundaries s.collected.groups r.requests s.built
