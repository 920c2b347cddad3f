-- ===== src/Deployment/Tests/Streams.antt =====
-- Tests of the readers and of `exchange` of scripts/verify_deployment.py.
use hp_http_server.Common.{
  ℕ, ◌+◌, ◌≡◌, refl, Bool, true, Option, none, some, List, [], ◌∷◌, ◌++◌, arith, Outcome, ok,
  if◌then◌else◌,
}
use hp_http_server.Common.Http.{Response, Client}
use hp_http_server.Common.Text.{Text, codes, text_eq}
use hp_http_server.Deployment.Exchange.{Codec, exchange}
use hp_http_server.Deployment.Exchange.Whole.{IsPayload, exchange-IsPayload}
use hp_http_server.Deployment.Process.{stdout, stderr}
use hp_http_server.Deployment.Streams.{Event, line, broken, start, collect, event}
use hp_http_server.Deployment.Streams.Bounds.{IsBounded, collect-IsBounded}
use hp_http_server.Deployment.Streams.First.{IsFirst, event-IsFirst}

abbrev decode : Text → Option Text
decode raw = some raw

abbrev schedule : List Event
schedule =
    line stdout (codes "one" ++ b'\n' ∷ []) true
    ∷ broken stderr true
    ∷ line stdout (codes "two") true
    ∷ []

lines_kept : (collect decode schedule start).out.lines ≡ codes "one" ∷ codes "two" ∷ []
unfolding collect
lines_kept = refl

abbrev queue : List (Text × Bool)
queue = (codes "x", true) ∷ (codes "HP 1", true) ∷ (codes "HP 2", true) ∷ []

first_taken : event (codes "HP") queue ≡ ok (codes "HP 1", (codes "HP 2", true) ∷ [])
unfolding event
first_taken = refl

collect-IsBounded_example : IsBounded (collect decode schedule start)
collect-IsBounded_example = collect-IsBounded decode schedule (omega arith, (tt, (omega arith, tt)))

event-IsFirst_example : IsFirst (codes "HP") queue (event (codes "HP") queue)
event-IsFirst_example = event-IsFirst (codes "HP") queue

abbrev codec : Codec Text
codec = record {
  dumps = λ json. json;
  int = λ value. if text_eq value (codes "3") then some 3 else none;
}

abbrev response : Response
response = record {
  status = 200;
  header = λ name. some (codes "3");
  body = codes "ok" ++ b'\n' ∷ [];
}

abbrev client : Client ℕ
client = record { request = λ method path sent headers n. (n + 1, ok response) }

exchanged :
    (exchange codec client (codes "GET") (codes "/healthz") none 200 0).1
    ≡ ok (codes "ok" ++ b'\n' ∷ [])
unfolding exchange
exchanged = refl

exchange-IsPayload_example :
    (r : Response) × (◌≡◌ {A = Outcome Text Response} (ok response) (ok r))
    × IsPayload codec (codes "GET") 200 r (codes "ok" ++ b'\n' ∷ [])
exchange-IsPayload_example =
    exchange-IsPayload codec client (codes "GET") (codes "/healthz") none 200 0
      (codes "ok" ++ b'\n' ∷ []) exchanged
