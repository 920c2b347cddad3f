-- ===== src/Decoder/Finish/Evidence.antt =====
-- The events that `finish` of benchmark/tail-localization/decode_v3.py hands to `analyze`.
use hp_http_server.Common.{ℕ, some, List, ◌∷◌, map}
use hp_http_server.Common.Int.{pos}
use hp_http_server.Timeline.Document.{
  int, Endpoint, Kind, kind_eq, write_begin, write_complete, first_byte, client_complete,
  server_first_read, parse_complete, response_enqueued, output_drained, handler_return, activity,
  Connection, Event, Owner,
}
use hp_http_server.Decoder.Threads.{client, server}
use hp_http_server.Decoder.Group.{Scope, Group}
use hp_http_server.Decoder.Finish.Points.{at}

-- The events of the document that is handed to `analyze`.
module _ (c : Connection) (sequence : ℕ) where
  unfoldable pub normalize_event : Endpoint → Owner → Kind → ℕ → ℕ → Event
  normalize_event endpoint owner kind time end = record {
    key = c.key;
    request_sequence = int (pos sequence);
    time_ns = some time;
    endpoint = endpoint;
    kind = kind;
    owner = owner;
    end_ns = end;
    content_length_verified = kind_eq kind client_complete;
    body_verified = kind_eq kind client_complete;
  }

  unfoldable pub client_event : Kind → ℕ → Event
  unfolding normalize_event
  client_event kind time = normalize_event Endpoint.client c.client kind time 0

  unfoldable pub server_event : Kind → ℕ → Event
  unfolding normalize_event
  server_event kind time = normalize_event Endpoint.server c.server kind time 0

  unfoldable pub activity_event : Scope → Event
  unfolding normalize_event
  activity_event s = elim s.endpoint [
    | client ↦ normalize_event Endpoint.client c.client activity s.start s.end
    | server ↦ normalize_event Endpoint.server c.server activity s.start s.end
  ]

  -- `events`, in the order of the appends; only the client's completion has the two flags.
  unfoldable pub events_of : Group → ℕ → ℕ → List Scope → List Event
  unfolding at client_event server_event activity_event
  events_of g first_read handler scopes =
      client_event write_begin (at 1 g)
      ∷ client_event write_complete (at 2 g)
      ∷ client_event first_byte (at 3 g)
      ∷ client_event client_complete (at 4 g)
      ∷ server_event parse_complete (at 8 g)
      ∷ server_event response_enqueued (at 10 g)
      ∷ server_event output_drained (at 15 g)
      ∷ server_event server_first_read first_read
      ∷ server_event handler_return handler
      ∷ map activity_event scopes
