-- ===== src/Deployment/Tests/Finish.antt =====
-- Tests of the end of `run` of scripts/verify_deployment.py.
use hp_http_server.Common.{
  ℕ, ◌+◌, ◌≡◌, refl, true, false, Option, none, some, List, [], ◌∷◌, ok, err, inr,
}
use hp_http_server.Common.Int.{pos}
use hp_http_server.Common.Text.{Text, codes}
use hp_http_server.Deployment.Process.{Closing, Record}
use hp_http_server.Deployment.Finish.{
  cause_of, Action, restore_root, restore_page, remove_work, Summary, Directories, Owned,
  conclude_run,
}
use hp_http_server.Deployment.Finish.Report.{IsKept, conclude_run-IsKept}

-- The state counts the calls; the removal of the work directory may raise.
abbrev directories : Option Text → Directories ℕ
directories raised = record {
  call = λ action n. (n + 1, answer action);
  work_exists = λ n. ok false;
  write_summary = λ summary n. (n + 1, none);
}
  where
    answer : Action → Option Text
    answer restore_root = none
    answer restore_page = none
    answer remove_work = raised

abbrev summary : Summary
summary = record {
  passed = false;
  original_error = none;
  root_removed = none;
  permission_restored = none;
  cleanup_errors = [];
  forced = false;
}

abbrev owned : Owned
owned = record { artifacts = true; work = true; root = true }

abbrev closing : Closing
closing = record {
  exit = some (pos 0);
  reaped = true;
  readers_joined = true;
  pipes_closed = true;
  pid_exists = false;
  forced = false;
  reader_errors = [];
  cleanup_errors = [];
  port = none;
  admin_port = none;
  stdout_bytes = 0;
  stderr_bytes = 0;
}

abbrev records : List Record
records =
    record { argv = []; fault = none; original_error = none; pid = some 7; closing = some closing }
    ∷ []

removal_raises :
    (conclude_run (directories (some (codes "busy"))) (ok tt) false owned records summary 0).outcome
    ≡ err (inr (codes "busy" ∷ []))
unfolding conclude_run
removal_raises = refl

conclude_run-IsKept_example :
    IsKept
      (directories none)
      (cause_of (codes "x"))
      (conclude_run
        (directories none)
        (err (cause_of (codes "x")))
        false
        owned
        records
        summary
        0).errors
      (conclude_run
        (directories none)
        (err (cause_of (codes "x")))
        false
        owned
        records
        summary
        0).outcome
    × ((conclude_run
          (directories none)
          (err (cause_of (codes "x")))
          false
          owned
          records
          summary
          0).summary.original_error
        ≡ some (codes "x"))
conclude_run-IsKept_example =
    conclude_run-IsKept (directories none) (cause_of (codes "x")) false owned records summary 0
