-- ===== src/Matrix/Budget/Opening.antt =====
-- The constructor of `Budget` of benchmark/matrix/Common.py. A ledger's texts and counts that no
-- method reads again (schema, UTC time, free disk, limits on files) are left out.
use hp_http_server.Common.{
  ℕ, ◌+◌, ◌-◌, ◌*◌, Bool, true, false, not, ◌&&◌, ◌||◌, Option, none, some, List, [], String,
  str_eq, leb, if◌then◌else◌, Outcome, ok, err, ◌>>=◌, ◌>>◌, demand,
}
use hp_http_server.Matrix.Budget.{
  Refusal, unknown_recovery, not_builder, output_exists, already_started, disk_too_small,
  too_few_files, no_ledger, host_changed, no_recovery, identity_mismatch, old_budget_changed,
  approval_mismatch, r001_changed, second, FileStat, sizes, Recovery, Ledger, Budget, write,
}

-- What the constructor reads of the machine and of the role's directory: the limit on open files
-- (`none` is no limit), the digests of the documents, and the ledger that is stored.
pub record Host : Type 0 where
  pub root : String
  pub root_name : String
  pub output_exists : Bool
  pub ledger_exists : Bool
  pub stored : Option Ledger
  pub free : ℕ
  pub soft : Option ℕ
  pub boot_id : String
  pub node : String
  pub rework_sha256 : String
  pub old_budget_sha256 : String
  pub old_settlement_sha256 : String
  pub r001_ledgers : String × String
  pub files : List FileStat

-- `RECOVERY_APPROVALS`
unfoldable pub approval_of : String → Option String
approval_of name =
    if str_eq name "rework-001"
    then some "e1ccb058e5d6f79f4ed66bd2d9bf1882155df051d8a7820492e5ad9b3b5f1131"
    else if str_eq name "rework-002"
    then some "7c90b0f62295b30c4ec91454e34d40e19c8a64b2c4851d16ce32d84dde5b6f29"
    else none

abbrev is_text : Option String → String → Bool
is_text none s = false
is_text (some t) s = str_eq t s

abbrev is_known : Option String → Bool
is_known none = false
is_known (some approval) = true

abbrev pub has_files : Option ℕ → Bool
has_files none = true
has_files (some soft) = leb 160 soft

abbrev pub total_of : Option String → ℕ
total_of none = 1200 * second
total_of (some name) = 600 * second

unfoldable pub r001_of : String → Host → Option (String × String)
r001_of name h = if str_eq name "rework-002" then some h.r001_ledgers else none

unfoldable pub recovery_of : Option String → Host → Option Recovery
unfolding r001_of
recovery_of none h = none
recovery_of (some name) h = some (record {
  name = name;
  rework_sha256 = h.rework_sha256;
  old_budget_sha256 = h.old_budget_sha256;
  old_settlement_sha256 = h.old_settlement_sha256;
  role_root = h.root;
  host = h.node;
  r001_ledgers = r001_of name h;
})

unfoldable pub new_ledger : Option String → Host → ℕ → Ledger
unfolding recovery_of sizes
new_ledger recovery h now = record {
  started = now;
  deadline = now + total_of recovery;
  boot_id = h.boot_id;
  phases = [];
  raw_limit = 512 * 1024 * 1024;
  task_limit = 4 * 1024 * 1024 * 1024;
  recovery = recovery_of recovery h;
  usage_before = elim recovery [ none ↦ none | some name ↦ some (sizes h.files) ];
  usage = none;
  elapsed = 0;
  remaining = 0;
}

-- The object with its ledger, before a method is called.
unfoldable pub idle_budget : Bool → Option Ledger → Ledger → Budget
idle_budget recovery saved l = record {
  recovery = recovery;
  ledger = l;
  saved = saved;
  last_scan = 0;
  phase = none;
  phase_deadline = l.deadline - 10 * second;
}

unfoldable pub check_name : Option String → Host → Bool → Outcome Refusal (Unit {0})
unfolding approval_of
check_name none h create = ok tt
check_name (some name) h create = do
  demand (is_known (approval_of name)) unknown_recovery
  demand (not create || str_eq h.root_name "builder") not_builder
  demand (not create || not h.output_exists) output_exists

unfoldable pub create_ledger : Option String → Host → ℕ → Outcome Refusal Ledger
unfolding new_ledger
create_ledger recovery h now = do
  demand (not h.ledger_exists) already_started
  demand (leb (4 * 1024 * 1024 * 1024) h.free) disk_too_small
  demand (has_files h.soft) too_few_files
  ok (new_ledger recovery h now)

unfoldable pub load_ledger : Option Ledger → Host → Outcome Refusal Ledger
load_ledger none h = err no_ledger
load_ledger (some l) h = do demand (str_eq l.boot_id h.boot_id) host_changed; ok l

abbrev same_r001 : Option (String × String) → String × String → Bool
same_r001 none now = false
same_r001 (some (budget, settlement)) now = str_eq budget now.0 && str_eq settlement now.1

unfoldable pub check_reference : String → Option Recovery → Host → Outcome Refusal (Unit {0})
unfolding approval_of
check_reference name none h = err no_recovery
check_reference name (some r) h = do
  demand (str_eq r.name name && str_eq r.role_root h.root && str_eq r.host h.node) identity_mismatch
  demand
      (str_eq r.old_budget_sha256 h.old_budget_sha256
        && str_eq r.old_settlement_sha256 h.old_settlement_sha256)
      old_budget_changed
  demand (is_text (approval_of name) r.rework_sha256) approval_mismatch
  demand (not (str_eq name "rework-002") || same_r001 r.r001_ledgers h.r001_ledgers) r001_changed

unfoldable pub check_recovery : Option String → Ledger → Host → Outcome Refusal (Unit {0})
unfolding check_reference
check_recovery none l h = ok tt
check_recovery (some name) l h = check_reference name l.recovery h

abbrev pub is_recovery : Option String → Bool
is_recovery none = false
is_recovery (some name) = true

-- `recovery` is `none` for a false one and a name otherwise, `"rework-001"` for `True`. The three
-- times are the start and the two reads of `write`.
unfoldable pub open_budget : Bool → Option String → Host → ℕ → ℕ → ℕ → Outcome Refusal Budget
unfolding check_name create_ledger load_ledger check_recovery idle_budget write
open_budget create recovery h now now' now'' = do
  check_name recovery h create
  l ← if create then create_ledger recovery h now else load_ledger h.stored h
  let b : Budget = idle_budget (is_recovery recovery) (if create then none else some l) l
  let opened : Budget = if create then write now' now'' b else b
  check_recovery recovery opened.ledger h
  ok opened
