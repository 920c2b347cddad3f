-- ===== src/Matrix/Tests.antt =====
-- Runs of the budget, and the theorems at them.
use hp_http_server.Common.{
  ℕ, ◌+◌, ◌*◌, ◌<◌, ◌≡◌, refl, false, true, none, some, List, [], ◌∷◌, ok, err,
}
use hp_http_server.Matrix.Budget.{
  second, FileStat, sizes, Budget, phase_consumed, deadline_exhausted, check, begin,
}
use hp_http_server.Matrix.Budget.Opening.{Host, total_of, new_ledger, open_budget}
use hp_http_server.Matrix.Budget.Runs.{Call, begun, finished, run}
use hp_http_server.Matrix.Budget.Guarantees.{IsWithinLimits, check-in_time, begin_once}

abbrev host : Host
host = record {
  root = "/cache/v0.6-s2/builder";
  root_name = "builder";
  output_exists = false;
  ledger_exists = false;
  stored = none;
  free = 5000000000;
  soft = some 1024;
  boot_id = "boot";
  node = "node";
  rework_sha256 = "";
  old_budget_sha256 = "";
  old_settlement_sha256 = "";
  r001_ledgers = ("", "");
  files = [];
}

abbrev files : List FileStat
files =
    record { suffix = ".stdout"; size = 1000; blocks = 8 }
    ∷ record { suffix = ".json"; size = 5000; blocks = 8 }
    ∷ []

sizes_of_files : sizes files ≡ record {
  logical_bytes = 6000;
  allocated_bytes = 8192;
  charged_bytes = 8192;
  raw_bytes = 1000;
}
unfolding sizes
sizes_of_files = refl

abbrev start : ℕ
start = 100 * second

abbrev opened : Budget
opened = record {
  recovery = false;
  ledger = record (new_ledger none host start) { remaining = 1200 * second };
  saved = some (record (new_ledger none host start) { remaining = 1200 * second });
  last_scan = 0;
  phase = none;
  phase_deadline = 1290 * second;
}

open_budget-host : open_budget true none host start start start ≡ ok opened
unfolding open_budget
open_budget-host = refl

abbrev calls : List Call
calls =
    begun "smoke" (start + second) files (start + 2 * second) (start + 2 * second)
      (start + 2 * second)
    ∷ finished "valid" none (start + 30 * second) files (start + 30 * second) (start + 30 * second)
    ∷ []

-- The phase of a minute is over at its deadline.
smoke_deadline :
    (check (start + 62 * second) files none (run calls opened)).1 ≡ err deadline_exhausted
unfolding run check new_ledger
smoke_deadline = refl

check-run-calls : (check (start + 40 * second) files none (run calls opened)).1 ≡ ok tt
unfolding run check new_ledger
check-run-calls = refl

begin-opened :
    (begin "smoke"
      (start + second)
      files
      (start + second)
      (start + second)
      (start + second)
      opened).1
    ≡ ok tt
unfolding begin new_ledger
begin-opened = refl

check-in_time_example :
    (start + 40 * second + 10 * second < start + total_of none)
    × IsWithinLimits (check (start + 40 * second) files none (run calls opened)).0
check-in_time_example =
    check-in_time none host start start start opened calls (start + 40 * second) files none
      open_budget-host check-run-calls

abbrev smoke_begun : Budget
smoke_begun =
    (begin "smoke" (start + second) files (start + second) (start + second) (start + second)
      opened).0

abbrev smoke_finished : List Call
smoke_finished =
    finished "valid" none (start + 30 * second) files (start + 30 * second) (start + 30 * second)
    ∷ []

begin_once_example :
    begin "smoke" (start + 40 * second) files start start start (run smoke_finished smoke_begun)
    ≡ (run smoke_finished smoke_begun, err phase_consumed)
begin_once_example =
    begin_once "smoke" (start + second) files (start + second) (start + second) (start + second)
      opened smoke_finished (start + 40 * second) files start start start begin-opened
