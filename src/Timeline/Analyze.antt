-- ===== src/Timeline/Analyze.antt =====
-- `analyze` of benchmark/tail-localization/analyze.py as a whole.
pub mod Stages
pub mod Latency
pub mod Sequences
use hp_http_server.Common.{
  Bool, true, false, ◌&&◌, ◌≡◌, List, [], ◌∷◌, ℕ, leb, length, Outcome, ok, err, ◌>>=◌, ◌>>◌,
  demand, if◌then◌else◌,
}
use hp_http_server.Timeline.Errors.{Invalid, too_many_connections}
use hp_http_server.Timeline.Document.{Document, Connection}
use hp_http_server.Timeline.Events.{
  Collected, check_metadata, check_connections, check_events, check_gaps,
}
use hp_http_server.Timeline.Rows.{
  Row, Classification, boundary_unknown, complete, Phase, measurement, boundary, rows_of,
}

pub record Report : Type 0 where
  pub requests : List Row
  pub slow_requests : List Row
  pub measurement_slow_requests : List Row

abbrev pub is_slow : Classification → Bool
is_slow (boundary_unknown _) = false
is_slow (complete s) = s.slow

abbrev pub is_measured : Classification → Bool
is_measured (boundary_unknown _) = false
is_measured (complete s) = elim s.phase [ measurement ↦ true | boundary ↦ false ]

unfoldable pub select : (Row → Bool) → List Row → List Row
select p [] = []
select p (r ∷ rows) = let rest = select p rows in if p r then r ∷ rest else rest

abbrev pub nothing_collected : Collected
nothing_collected = record { groups = []; sequences = [] }

unfoldable pub analyze : Document → Outcome Invalid Report
unfolding select check_metadata check_connections check_events check_gaps rows_of
analyze d = do
  check_metadata d.metadata
  connections ← check_connections [] d.connections
  demand (leb (length connections) 16) too_many_connections
  collected ← check_events connections nothing_collected d.events
  check_gaps collected.sequences
  rows ← rows_of d.metadata d.request_boundaries collected.groups
  ok (record {
    requests = rows;
    slow_requests = select (λ (r : Row). is_slow r.classification) rows;
    measurement_slow_requests =
        select (λ (r : Row). is_slow r.classification && is_measured r.classification) rows;
  })
