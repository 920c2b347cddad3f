-- ===== src/Deployment/Streams/First.antt =====
-- The line that `event` in scripts/verify_deployment.py returns.
use hp_http_server.Common.{
  ◌≡◌, refl, ap, Bool, true, false, List, [], ◌∷◌, ◌++◌, All, if◌then◌else◌, Bool-cases, inl, inr,
  Outcome, ok, err,
}
use hp_http_server.Common.Text.{Text, starts_with}
use hp_http_server.Deployment.Streams.{Late, nothing_came, deadline_passed, event}

-- A line without the prefix that came before the deadline.
abbrev pub IsSkipped : Text → Text × Bool → Type 0
IsSkipped prefix (text, in_time) = (starts_with text prefix ≡ false) × (in_time ≡ true)

-- The lines before the returned one were skipped and those after it are left; or the call failed, since
-- every line was skipped, or since one came too late that has not the prefix.
abbrev pub IsFirst : Text → List (Text × Bool) → Outcome Late (Text × List (Text × Bool)) → Type 0
IsFirst prefix queue (ok (text, rest)) =
    (skipped : List (Text × Bool)) × (in_time : Bool) × All (IsSkipped prefix) skipped
    × (starts_with text prefix ≡ true)
    × (queue ≡ skipped ++ (text, in_time) ∷ rest)
IsFirst prefix queue (err nothing_came) = All (IsSkipped prefix) queue
IsFirst prefix queue (err deadline_passed) =
    (skipped : List (Text × Bool)) × (text : Text) × (rest : List (Text × Bool)) × All
      (IsSkipped prefix) skipped
    × (starts_with text prefix ≡ false)
    × (queue ≡ skipped ++ (text, false) ∷ rest)

skip-IsFirst :
    (prefix text : Text) (queue : List (Text × Bool))
    → (result : Outcome Late (Text × List (Text × Bool))) → starts_with text prefix ≡ false
    → IsFirst prefix queue result
    → IsFirst prefix ((text, true) ∷ queue) result
skip-IsFirst prefix text queue (ok (found, rest)) other (skipped, in_time, all, hit, e) = (
  (text, true) ∷ skipped,
  in_time,
  ((other, refl), all),
  hit,
  ap (λ (l : List (Text × Bool)). (text, true) ∷ l) e,
)
skip-IsFirst prefix text queue (err nothing_came) other all = ((other, refl), all)
skip-IsFirst prefix text queue (err deadline_passed) other (skipped, late, rest, all, miss, e) = (
  (text, true) ∷ skipped,
  late,
  rest,
  ((other, refl), all),
  miss,
  ap (λ (l : List (Text × Bool)). (text, true) ∷ l) e,
)

-- `event` returns the first line that has the prefix, if all lines before it came before the deadline,
-- and leaves the lines behind it; else it raises, and never waits for a line after a late one.
pub event-IsFirst :
    (prefix : Text) (queue : List (Text × Bool)) → IsFirst prefix queue (event prefix queue)
unfolding event
event-IsFirst prefix [] = tt
event-IsFirst prefix ((text, in_time) ∷ queue) = elim (Bool-cases (starts_with text prefix)) [
  | inl hit ↦ rw hit ([], in_time, tt, hit, refl)
  | inr miss ↦ rw miss (late_or_skipped in_time miss (event-IsFirst prefix queue))
]
  where
    late_or_skipped :
        (b : Bool)
        → starts_with text prefix ≡ false
        → IsFirst prefix queue (event prefix queue)
        → IsFirst prefix ((text, b) ∷ queue) (if b then event prefix queue else err deadline_passed)
    late_or_skipped true miss later = skip-IsFirst prefix text queue (event prefix queue) miss later
    late_or_skipped false miss later = ([], text, queue, tt, miss, refl)
