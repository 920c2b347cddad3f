-- ===== src/Matrix/Budget.antt =====
-- `sizes` and `Budget` of benchmark/matrix/Common.py: the ledger of one role, with its deadlines
-- and its space limits. A method gives the object after it and what it raised, since its changes
-- outlive an exception. Times are natural nanoseconds; what a method reads of the clock and of the
-- directory are its arguments, in the order of the reads.
pub mod Sizes
pub mod Opening
pub mod Runs
pub mod Guarantees
use hp_http_server.Common.{
  ℕ, ◌+◌, ◌-◌, ◌*◌, min, max, Bool, true, false, not, ◌&&◌, ◌||◌, Option, none, some, List, [], ◌∷◌,
  ◌++◌, String, str_eq, ltb, leb, ◌==◌, if◌then◌else◌, any, Outcome, ok, err,
}

pub data Refusal : Type 0 where
  unknown_recovery not_builder output_exists already_started disk_too_small too_few_files : Refusal
  no_ledger host_changed no_recovery identity_mismatch old_budget_changed approval_mismatch :
      Refusal
  r001_changed phase_consumed deadline_exhausted raw_limit task_limit no_usage unknown_phase :
      Refusal
  no_phase_row : Refusal

abbrev pub second : ℕ
second = 1000000000

-- A file below the root, as `stat` has it.
pub record FileStat : Type 0 where
  pub suffix : String
  pub size : ℕ
  pub blocks : ℕ

pub record Usage : Type 0 where
  pub logical_bytes : ℕ
  pub allocated_bytes : ℕ
  pub charged_bytes : ℕ
  pub raw_bytes : ℕ

abbrev pub is_raw : FileStat → Bool
is_raw f = str_eq f.suffix ".log" || str_eq f.suffix ".stdout" || str_eq f.suffix ".stderr"

-- The loop of `sizes`, on the three sums.
unfoldable pub add_sizes : ℕ → ℕ → ℕ → List FileStat → Usage
add_sizes logical allocated raw [] = record {
  logical_bytes = logical;
  allocated_bytes = allocated;
  charged_bytes = max logical allocated;
  raw_bytes = raw;
}
add_sizes logical allocated raw (f ∷ files) =
    add_sizes (logical + f.size) (allocated + f.blocks * 512)
      (if is_raw f then raw + f.size else raw) files

unfoldable pub sizes : List FileStat → Usage
unfolding add_sizes
sizes files = add_sizes 0 0 0 files

pub record PhaseRow : Type 0 where
  pub name : String
  pub status : String
  pub start : ℕ
  pub deadline : ℕ
  pub end : Option ℕ
  pub elapsed : Option ℕ
  pub error : Option String

-- `data['recovery']`; its name stands without the prefix `S2-`.
pub record Recovery : Type 0 where
  pub name : String
  pub rework_sha256 : String
  pub old_budget_sha256 : String
  pub old_settlement_sha256 : String
  pub role_root : String
  pub host : String
  pub r001_ledgers : Option (String × String)

-- `self.data`; `usage` is absent until a scan.
pub record Ledger : Type 0 where
  pub started : ℕ
  pub deadline : ℕ
  pub boot_id : String
  pub phases : List PhaseRow
  pub raw_limit : ℕ
  pub task_limit : ℕ
  pub recovery : Option Recovery
  pub usage_before : Option Usage
  pub usage : Option Usage
  pub elapsed : ℕ
  pub remaining : ℕ

-- `saved` is the content of budget.json.
pub record Budget : Type 0 where
  pub recovery : Bool
  pub ledger : Ledger
  pub saved : Option Ledger
  pub last_scan : ℕ
  pub phase : Option String
  pub phase_deadline : ℕ

abbrev pub Step : Type 0
Step = Budget × Outcome Refusal (Unit {0})

-- The rest of a method runs on the object that the call before it left, unless it raised.
unfoldable pub and_then : Step → (Budget → Step) → Step
and_then (b, err e) rest = (b, err e)
and_then (b, ok u) rest = rest b

unfoldable pub require : Bool → Refusal → Budget → Step
require true e b = (b, ok tt)
require false e b = (b, err e)

-- `CAPS`
unfoldable pub cap_of : String → Option ℕ
cap_of phase =
    if str_eq phase "build"
    then some (600 * second)
    else if str_eq phase "fastchecks"
    then some (120 * second)
    else if str_eq phase "smoke"
    then some (60 * second)
    else if str_eq phase "formal"
    then some (600 * second)
    else none

abbrev pub is_phase : String → PhaseRow → Bool
is_phase phase r = str_eq phase r.name

unfoldable pub write : ℕ → ℕ → Budget → Budget
write now later b =
    let written : Ledger = record b.ledger {
      elapsed = now - b.ledger.started;
      remaining = b.ledger.deadline - later;
    } in
    record b { ledger = written; saved = some written }

-- `deadline` is `None` or a deadline of the caller's.
unfoldable pub check_deadline : ℕ → Option ℕ → Budget → Bool
check_deadline now none b = ltb now (min b.phase_deadline b.phase_deadline)
check_deadline now (some deadline) b = ltb now (min b.phase_deadline deadline)

unfoldable pub scan : ℕ → List FileStat → Budget → Budget
unfolding sizes
scan now files b =
    if leb second (now - b.last_scan)
    then record b { ledger = record b.ledger { usage = some (sizes files) }; last_scan = now }
    else b

unfoldable pub check_usage : Option Usage → Budget → Step
unfolding and_then require
check_usage none b = (b, err no_usage)
check_usage (some u) b =
    and_then (require (leb u.raw_bytes b.ledger.raw_limit) raw_limit b)
      (require (leb u.charged_bytes b.ledger.task_limit) task_limit)

unfoldable pub check : ℕ → List FileStat → Option ℕ → Budget → Step
unfolding and_then require check_deadline scan check_usage
check now files deadline b =
    and_then (require (check_deadline now deadline b) deadline_exhausted b)
      (λ b. check_usage (scan now files b).ledger.usage (scan now files b))

-- The rest of `begin` after the check: an unknown phase is a `KeyError` that leaves it set.
unfoldable pub begin_phase : String → ℕ → ℕ → ℕ → Option ℕ → Budget → Step
unfolding write
begin_phase phase now now' now'' none b = (record b { phase = some phase }, err unknown_phase)
begin_phase phase now now' now'' (some allowed) b =
    let deadline = min (b.ledger.deadline - 10 * second) (now + allowed) in
    let row : PhaseRow = record {
      name = phase;
      status = "running";
      start = now;
      deadline = deadline;
      end = none;
      elapsed = none;
      error = none;
    } in
    (
      write now' now'' (record b {
        phase = some phase;
        phase_deadline = deadline;
        ledger = record b.ledger { phases = b.ledger.phases ++ row ∷ [] };
      }),
      ok tt,
    )

unfoldable pub allowance_of : Bool → String → Option ℕ
unfolding cap_of
allowance_of recovery phase =
    if recovery && str_eq phase "fastchecks" then some (60 * second) else cap_of phase

unfoldable pub begin : String → ℕ → List FileStat → ℕ → ℕ → ℕ → Budget → Step
unfolding and_then require check begin_phase allowance_of
begin phase checked files now now' now'' b =
    and_then (require (not (any (is_phase phase) b.ledger.phases)) phase_consumed b) (λ b.
      and_then (check checked files none b)
        (λ b. begin_phase phase now now' now'' (allowance_of b.recovery phase) b))

-- `row.update(...)` on the row of the phase; `none` if there is no such row.
unfoldable pub end_phase :
    String → String → Option String → ℕ → List PhaseRow → Option (List PhaseRow)
end_phase phase status error now [] = none
end_phase phase status error now (r ∷ rows) =
    let rest = end_phase phase status error now rows in
    if is_phase phase r
    then some (
        record r { status = status; end = some now; elapsed = some (now - r.start); error = error }
        ∷ rows)
    else elim rest [ none ↦ none | some ended ↦ some (r ∷ ended) ]

unfoldable pub finish_usage : List FileStat → ℕ → ℕ → Budget → Step
unfolding write sizes
finish_usage files now' now'' b =
    (write now' now'' (record b { ledger = record b.ledger { usage = some (sizes files) } }), ok tt)

unfoldable pub finish_rows : Option (List PhaseRow) → List FileStat → ℕ → ℕ → Budget → Step
unfolding finish_usage
finish_rows none files now' now'' b = (b, err no_phase_row)
finish_rows (some rows) files now' now'' b =
    finish_usage files now' now'' (record b { ledger = record b.ledger { phases = rows } })

-- `if self.phase`: no phase, or an empty text, has no row.
unfoldable pub finish_phase :
    Option String → String → Option String → ℕ → List FileStat → ℕ → ℕ → Budget → Step
unfolding end_phase finish_rows finish_usage
finish_phase none status error now files now' now'' b = finish_usage files now' now'' b
finish_phase (some phase) status error now files now' now'' b =
    if str_eq phase ""
    then finish_usage files now' now'' b
    else finish_rows (end_phase phase status error now b.ledger.phases) files now' now'' b

unfoldable pub finish : String → Option String → ℕ → List FileStat → ℕ → ℕ → Budget → Step
unfolding finish_phase
finish status error now files now' now'' b =
    finish_phase b.phase status error now files now' now'' b
