-- ===== src/Demo/Tests/Demonstrate.antt =====
-- Tests of `with DemoServer` and of the end of `demonstrate` of scripts/demo_task_application.py.
use hp_http_server.Common.{Bool, ℕ, ◌+◌, ◌≡◌, refl, true, false, none, some, [], Outcome, ok, err}
use hp_http_server.Common.Text.{codes}
use hp_http_server.Demo.Demonstrate.{
  Body, with_server, IsClosed, with_server-IsClosed, conclude_demo, conclude_demo-HasPassed,
}
use hp_http_server.Demo.Finalize.{ask_removed, Summary, Output, Cause}
use hp_http_server.Demo.Finalize.Report.{removal_of, errors_of}
use hp_http_server.Demo.Server.{error_of}
use hp_http_server.Demo.Tests.Server.{platform, machine}

abbrev body : Body platform
body port m = (m, err (error_of (codes "static bytes")))

body_raises : (with_server platform [] body (machine false)).0.cleaned ≡ true
unfolding with_server
body_raises = refl

with_server-IsClosed_example : IsClosed platform (with_server platform [] body (machine false))
with_server-IsClosed_example = with_server-IsClosed platform [] body (machine false)

abbrev output : Output ℕ
output = record {
  rmtree = λ n. (n + 1, none);
  exists = λ n. ok false;
  write_summary = λ summary n. (n + 1, none);
}

abbrev summary : Summary
summary = record { passed = false; original_error = none; root_removed = none; cleanup_errors = [] }

abbrev left : Summary
left = record {
  passed = true;
  original_error = none;
  root_removed = some true;
  cleanup_errors = [];
}

passes : conclude_demo output (ok tt) true summary 0 ≡ ok left
unfolding conclude_demo
passes = refl

conclude_demo-HasPassed_example :
    (◌≡◌ {A = Outcome Cause (Unit {0})} (ok tt) (ok tt))
    × (left.passed ≡ true)
    × ((removed : Bool) × (ask_removed output true (removal_of output true 0).0 ≡ ok removed)
        × (errors_of output true removed (record summary { passed = true }) 0 ≡ []))
conclude_demo-HasPassed_example = conclude_demo-HasPassed output (ok tt) true summary 0 left passes
