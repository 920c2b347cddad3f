-- ===== src/Deployment/Finish.antt =====
-- The end of `run` in scripts/verify_deployment.py: the restored permissions, the removal of the work
-- directory, the summary, and the error that is raised in the end. A call that raises answers the `repr`
-- of its error.
pub mod Report
use hp_http_server.Common.{
  Bool, true, false, not, ◌||◌, Option, none, some, List, [], ◌∷◌, ◌++◌, any, all, if◌then◌else◌,
  Outcome, ok, err, ◌>>=◌, ◌>>◌, demand, ◌⊎◌, inl, inr,
}
use hp_http_server.Common.Text.{Text, codes, is_empty}
use hp_http_server.Deployment.Process.{Closing, Record, is_clean, noted}

pub record Cause : Type 0 where
  pub text : Text
  pub notes : List (List Text)

abbrev pub cause_of : Text → Cause
cause_of text = record { text = text; notes = [] }

abbrev pub has_clean : Option Closing → Bool
has_clean none = false
has_clean (some c) = is_clean c

-- `assert_clean`; a record that `cleanup` has not completed raises a KeyError.
unfoldable pub assert_clean : List Record → Outcome Cause (Unit {0})
assert_clean [] = ok tt
assert_clean (r ∷ records) = do
  demand (has_clean r.closing) (cause_of (codes "owned process cleanup"))
  assert_clean records

abbrev pub is_forced : Option Closing → Bool
is_forced none = false
is_forced (some c) = c.forced

-- `any(record.get('forced', False) for record in records)`
abbrev pub any_forced : List Record → Bool
any_forced records = any (λ (r : Record). is_forced r.closing) records

pub data Action : Type 0 where
  restore_root restore_page remove_work : Action

-- The entries of the summary that the end sets, and `passed`.
pub record Summary : Type 0 where
  pub passed : Bool
  pub original_error : Option Text
  pub root_removed : Option Bool
  pub permission_restored : Option Bool
  pub cleanup_errors : List Text
  pub forced : Bool

pub record Directories (State : Type 0) : Type 0 where
  pub call : Action → State → State × Option Text
  pub work_exists : State → Outcome Text Bool
  pub write_summary : Summary → State → State × Option Text

-- Which directories this run has made.
pub record Owned : Type 0 where
  pub artifacts : Bool
  pub work : Bool
  pub root : Bool

-- What the run leaves, with the summary as it is returned or was written.
pub record Ending (State : Type 0) : Type 0 where
  pub state : State
  pub summary : Summary
  pub errors : List Text
  pub outcome : Outcome (Cause ⊎ List Text) (Unit {0})

module _ {State : Type 0} (directories : Directories State) where
  unfoldable pub actions_of : Owned → List Action
  actions_of owned =
      (if owned.root then restore_root ∷ [] else [])
      ++ (if owned.work then restore_page ∷ remove_work ∷ [] else [])

  -- Each action is tried, whatever the others answer.
  unfoldable pub try_all : List Action → State × List Text → State × List Text
  try_all [] (state, errors) = (state, errors)
  try_all (action ∷ actions) (state, errors) =
      let (after, raised) = directories.call action state in
      try_all actions (after, errors ++ noted raised)

  abbrev pub prefixed : Option Text → List Text
  prefixed none = []
  prefixed (some text) = (codes "summary: " ++ text) ∷ []

  abbrev pub removed_of : Owned → State → Outcome Text Bool
  removed_of owned state =
      if owned.work
      then directories.work_exists state >>= (λ (found : Bool). ok (not found))
      else ok true

  abbrev pub sum_up : List Record → List Text → Bool → Summary → Summary
  sum_up records errors removed summary = record summary {
    passed = if not (is_empty errors) || any_forced records then false else summary.passed;
    root_removed = some removed;
    permission_restored = some removed;
    cleanup_errors = errors;
    forced = any_forced records;
  }

  abbrev pub written : Owned → Summary → State → State × Option Text
  written owned summary state =
      if owned.artifacts then directories.write_summary summary state else (state, none)

  -- The list of errors is shared: an error of the write is in the summary that is left.
  abbrev pub write_down :
      Owned
      → List Record
      → Summary
      → State × List Text
      → Outcome Text Bool
      → (State × Summary × List Text)
  write_down owned records summary (state, errors) (err text) =
      (state, summary, errors ++ prefixed (some text))
  write_down owned records summary (state, errors) (ok removed) =
      let summed = sum_up records errors removed summary in
      let after = written owned summed state in
      (
        after.0,
        record summed { cleanup_errors = errors ++ prefixed after.1 },
        errors ++ prefixed after.1,
      )

  abbrev pub outcome_of : Option Cause → List Text → Outcome (Cause ⊎ List Text) (Unit {0})
  outcome_of none [] = ok tt
  outcome_of none (e ∷ errors) = err (inr (e ∷ errors))
  outcome_of (some cause) [] = err (inl cause)
  outcome_of (some cause) (e ∷ errors) =
      err (inl (record cause { notes = cause.notes ++ (e ∷ errors) ∷ [] }))

  unfoldable pub finish_run : Owned → List Record → Summary → Option Cause → State → Ending State
  unfolding actions_of try_all
  finish_run owned records summary cause state =
      let acted = try_all (actions_of owned) (state, []) in
      let (after, left, errors) =
        write_down owned records summary acted (removed_of owned acted.0) in
      record { state = after; summary = left; errors = errors; outcome = outcome_of cause errors }

-- The last checks of the body: every process was cleaned up, and no failure was asked for.
unfoldable pub last_checks :
    Outcome Cause (Unit {0}) → List Record → Bool → Outcome Cause (Unit {0})
unfolding assert_clean
last_checks body records negative = do
  body
  assert_clean records
  demand (not negative) (cause_of (codes "intentional deployment wrong expectation"))

module _ {State : Type 0} (directories : Directories State) where
  abbrev pub after_body :
      Owned → List Record → Summary → State → Outcome Cause (Unit {0}) → Ending State
  after_body owned records summary state (ok u) =
      finish_run directories owned records (record summary { passed = true }) none state
  after_body owned records summary state (err cause) =
      finish_run directories owned records (record summary { original_error = some cause.text })
        (some cause) state

  -- `run` from the end of its scenario, which came to `body`.
  unfoldable pub conclude_run :
      Outcome Cause (Unit {0}) → Bool → Owned → List Record → Summary → State → Ending State
  unfolding last_checks finish_run
  conclude_run body negative owned records summary state =
      after_body owned records summary state (last_checks body records negative)
