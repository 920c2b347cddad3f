-- ===== src/Demo/Finalize.antt =====
-- `finalize_output` in scripts/demo_task_application.py, which removes the root and writes the summary
-- whatever the demo came to. The removal, the question
-- whether the root is there and the write are calls that may raise an error, here its `repr`.
pub mod Report
use hp_http_server.Common.{
  Bool, true, false, not, Option, none, some, List, [], ◌∷◌, ◌++◌, if◌then◌else◌, Outcome, ok, err,
  ◌>>=◌,
}
use hp_http_server.Common.Text.{Text, codes, is_empty}

-- The entries of the summary that change: the others are constants, steps and records.
pub record Summary : Type 0 where
  pub passed : Bool
  pub original_error : Option Text
  pub root_removed : Option Bool
  pub cleanup_errors : List Text

pub record Output (State : Type 0) : Type 0 where
  pub rmtree : State → State × Option Text
  pub exists : State → Outcome Text Bool
  pub write_summary : Summary → State → State × Option Text

-- The original error, with the notes that were added to it.
pub record Cause : Type 0 where
  pub text : Text
  pub notes : List (List Text)

-- What `finalize_output` raises: an error of `root.exists()`, which it does not catch, or the errors that it
-- has collected.
pub data Raised : Type 0 where
  escaped : Text → Raised
  reported : List Text → Raised

-- What is left: the directory, the summary, the original error, and whether the call raised.
pub record Ending (State : Type 0) : Type 0 where
  pub state : State
  pub summary : Summary
  pub original_error : Option Cause
  pub outcome : Outcome Raised (Unit {0})

abbrev pub noted : Text → Option Text → List Text
noted prefix none = []
noted prefix (some text) = (prefix ++ text) ∷ []

module _ {State : Type 0} (output : Output State) where
  unfoldable pub remove_root : Bool → State → State × List Text
  remove_root has_root state =
      let (removed, raised) = output.rmtree state in
      if has_root then (removed, noted (codes "root cleanup: ") raised) else (state, [])

  -- `root is None or not root.exists()`
  abbrev pub ask_removed : Bool → State → Outcome Text Bool
  ask_removed has_root state =
      if has_root then (output.exists state >>= λ found. ok (not found)) else ok true

  unfoldable pub sum_up : Bool → List Text → Summary → Summary
  sum_up removed errors summary = record summary {
    passed = if is_empty errors then summary.passed else false;
    root_removed = some removed;
    cleanup_errors = errors;
  }

  abbrev pub conclude : List Text → State → Summary → Option Cause → Ending State
  conclude [] state summary original = record {
    state = state;
    summary = summary;
    original_error = original;
    outcome = ok tt;
  }
  conclude (e ∷ errors) state summary none = record {
    state = state;
    summary = summary;
    original_error = none;
    outcome = err (reported (e ∷ errors));
  }
  conclude (e ∷ errors) state summary (some cause) = record {
    state = state;
    summary = summary;
    original_error = some (record cause { notes = cause.notes ++ (e ∷ errors) ∷ [] });
    outcome = ok tt;
  }

  -- The summary shares its list of errors with the call: an error of the write is in it afterwards.
  unfoldable pub write_down : State → Summary → Option Cause → Ending State
  write_down state summary original =
      let (written, raised) = output.write_summary summary state in
      let errors = summary.cleanup_errors ++ noted (codes "summary write: ") raised in
      conclude errors written (record summary { cleanup_errors = errors }) original

  abbrev pub after_asking :
      Outcome Text Bool → State × List Text → Summary → Option Cause → Ending State
  after_asking (err text) (state, errors) summary original = record {
    state = state;
    summary = summary;
    original_error = original;
    outcome = err (escaped text);
  }
  after_asking (ok removed) (state, errors) summary original =
      write_down state (sum_up removed errors summary) original

  unfoldable pub finalize_output : Bool → Summary → Option Cause → State → Ending State
  unfolding remove_root sum_up write_down
  finalize_output has_root summary original state =
      let acted = remove_root has_root state in
      after_asking (ask_removed has_root acted.0) acted summary original
