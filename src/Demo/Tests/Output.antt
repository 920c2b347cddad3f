-- ===== src/Demo/Tests/Output.antt =====
-- Tests of the log reader of scripts/demo_task_application.py.
use hp_http_server.Common.{ℕ, zero, suc, ◌++◌, ◌≡◌, ◌⊎◌, refl, true, some, List, [], ◌∷◌, arith}
use hp_http_server.Common.Search.{decimal_from}
use hp_http_server.Common.Text.{Text, codes}
use hp_http_server.Demo.Output.{number_too_long, Event, chunk, take, start, collect_output}
use hp_http_server.Demo.Output.Bounds.{IsBounded, collect_output-IsBounded}
use hp_http_server.Demo.Output.Announced.{IsTruthful, collect_output-IsTruthful}
use hp_http_server.Demo.Output.Found.{learned, collect_output-finds}

abbrev schedule : List Event
schedule = take ∷ chunk (codes "listening on po") true ∷ chunk (codes "rt 80.") true ∷ take ∷ []

port_taken : (collect_output schedule start).port ≡ some 80
unfolding collect_output decimal_from
port_taken = refl

log_kept : (collect_output schedule start).log ≡ codes "listening on port 80."
unfolding collect_output
log_kept = refl

collect_output-IsBounded_example : IsBounded (collect_output schedule start)
collect_output-IsBounded_example = collect_output-IsBounded schedule

collect_output-IsTruthful_example : IsTruthful (collect_output schedule start)
collect_output-IsTruthful_example = collect_output-IsTruthful schedule

collect_output-finds_example :
    (learned (collect_output schedule start) ≡ true)
    ⊎ ((collect_output schedule start).reader_error ≡ some number_too_long)
collect_output-finds_example =
    collect_output-finds schedule (tt, (omega arith, (omega arith, (tt, tt)))) b'8' (b'0' ∷ []) []
      [] (refl, (refl, tt)) (omega arith) log_kept

-- A number of more than 4300 digits before a short one ends the reader.
abbrev ones : ℕ → Text
ones zero = []
ones (suc n) = b'1' ∷ ones n

number_refused :
    (collect_output
      (chunk (codes "listening on port ") true
        ∷ chunk (ones 4000) true
        ∷ chunk (ones 301 ++ codes ". listening on port 80.") true
        ∷ [])
      start).reader_error
    ≡ some number_too_long
unfolding collect_output
number_refused = refl
