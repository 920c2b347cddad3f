-- ===== src/Timeline/Analyze/Stages.antt =====
-- What a report that `analyze` returns has gone through: one field for each stage.
use hp_http_server.Common.{
  ◌≤◌, ◌≡◌, true, List, [], all, ap, length, leb, leb→le, ok, demand, >>=-eq-ok, demand-eq-ok,
  ok-injective, ◌∙◌,
}
use hp_http_server.Timeline.Errors.{too_many_connections, request_sequence_gap}
use hp_http_server.Timeline.Document.{Document, Connection}
use hp_http_server.Timeline.Events.{
  Collected, Seen, check_metadata, check_connections, check_events, check_gaps, is_contiguous,
  sorted_values,
}
use hp_http_server.Timeline.Rows.{rows_of}
use hp_http_server.Timeline.Analyze.{Report, nothing_collected, analyze}

pub record Stages (d : Document) (r : Report) : Type 0 where
  pub connections : List Connection
  pub collected : Collected
  pub connected : check_connections [] d.connections ≡ ok connections
  pub few : length connections ≤ 16
  pub gathered : check_events connections nothing_collected d.events ≡ ok collected
  pub gapless :
      all (λ (s : Seen). is_contiguous (sorted_values s.values)) collected.sequences ≡ true
  pub built : rows_of d.metadata d.request_boundaries collected.groups ≡ ok r.requests

pub stages : (d : Document) (r : Report) → analyze d ≡ ok r → Stages d r
unfolding analyze check_gaps
stages d r h =
    let (_, _, h1) = >>=-eq-ok (check_metadata d.metadata) _ h in
    let (connections, connected, h2) = >>=-eq-ok (check_connections [] d.connections) _ h1 in
    let (_, few, h3) = >>=-eq-ok (demand (leb (length connections) 16) too_many_connections) _ h2 in
    let (collected, gathered, h4) =
      >>=-eq-ok (check_events connections nothing_collected d.events) _ h3 in
    let (_, gapless, h5) = >>=-eq-ok (check_gaps collected.sequences) _ h4 in
    let (rows, built, f) =
      >>=-eq-ok (rows_of d.metadata d.request_boundaries collected.groups) _ h5 in
    record {
      connections = connections;
      collected = collected;
      connected = connected;
      few =
          leb→le (length connections) 16
            (demand-eq-ok (leb (length connections) 16) too_many_connections few);
      gathered = gathered;
      gapless = demand-eq-ok _ request_sequence_gap gapless;
      built = built ∙ ap ok (ap (λ (x : Report). x.requests) (ok-injective f));
    }
