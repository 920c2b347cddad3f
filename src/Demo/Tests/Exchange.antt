-- ===== src/Demo/Tests/Exchange.antt =====
-- Tests of `exchange` and `finalize_output` of scripts/demo_task_application.py.
use hp_http_server.Common.{
  ℕ, ◌+◌, ◌≡◌, refl, true, false, Option, none, some, [], if◌then◌else◌, Outcome, ok, err,
}
use hp_http_server.Common.Http.{Response, Client}
use hp_http_server.Common.Text.{Text, codes, text_eq}
use hp_http_server.Demo.Exchange.{Codec, decoded, exchange, framing}
use hp_http_server.Demo.Exchange.Whole.{IsFramed, IsAnswer, exchange-IsAnswer}
use hp_http_server.Demo.Finalize.{Cause, escaped, ask_removed, Summary, Output, finalize_output}
use hp_http_server.Demo.Finalize.Report.{IsReported, removal_of, finalize_output-IsReported}

abbrev digits_of : Text → Option ℕ
digits_of value = if text_eq value (codes "2") then some 2 else none

abbrev codec : Codec Text
codec = record { dumps = λ json. json; loads = λ text. some text; int = digits_of }

abbrev header : Text → Option Text
header name =
    if text_eq name (codes "Content-Length")
    then some (codes "2")
    else if text_eq name (codes "Cache-Control")
    then some (codes "no-store")
    else some (codes "application/json")

abbrev response : Text → Response
response body = record { status = 200; header = header; body = body }

abbrev client : Text → Client ℕ
client body = record { request = λ method path sent headers n. (n + 1, ok (response body)) }

exchanged :
    (exchange codec (client (codes "{}")) (codes "GET") (codes "/api/tasks") none 200 0).1
    ≡ ok (decoded (codes "{}"))
unfolding exchange
exchanged = refl

cut_off :
    (exchange codec (client (codes "{")) (codes "GET") (codes "/api/tasks") none 200 0).1
    ≡ err framing
unfolding exchange
cut_off = refl

exchange-IsAnswer_example :
    (r : Response) × (◌≡◌ {A = Outcome Text Response} (ok (response (codes "{}"))) (ok r))
    × IsFramed codec 200 r
    × IsAnswer codec (codes "/api/tasks") r (decoded (codes "{}"))
exchange-IsAnswer_example =
    exchange-IsAnswer codec (client (codes "{}")) (codes "GET") (codes "/api/tasks") none 200 0
      (decoded (codes "{}")) exchanged

-- A root that cannot be removed, and a summary that can be written.
abbrev output : Output ℕ
output = record {
  rmtree = λ n. (n, some (codes "busy"));
  exists = λ n. ok true;
  write_summary = λ summary n. (n + 1, none);
}

abbrev summary : Summary
summary = record { passed = true; original_error = none; root_removed = none; cleanup_errors = [] }

not_passed : (finalize_output output true summary none 0).summary.passed ≡ false
unfolding finalize_output
not_passed = refl

finalize_output-IsReported_example :
    IsReported output true summary none 0
      (ask_removed output true (removal_of output true 0).0)
      (finalize_output output true summary none 0)
finalize_output-IsReported_example = finalize_output-IsReported output true summary none 0

-- The question whether the root is there raises: the original error is replaced.
abbrev locked : Output ℕ
locked = record output { exists = λ n. err (codes "PermissionError") }

replaced :
    (cause : Cause)
    → (finalize_output locked true summary (some cause) 0).outcome
      ≡ err (escaped (codes "PermissionError"))
unfolding finalize_output
replaced cause = refl
