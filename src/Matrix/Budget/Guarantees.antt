-- ===== src/Matrix/Budget/Guarantees.antt =====
-- What a budget guarantees: the last ten seconds are left for the cleanup, the limits hold where a
-- check passes, and a phase is never begun twice.
use hp_http_server.Common.{
  ℕ, ◌+◌, ◌*◌, ◌≤◌, ◌<◌, ◌≡◌, refl, ◌∙◌, sym, ap, subst, min, Bool, true, false, not, Option, none,
  some, List, String, leb, ltb→lt, leb→le, eq_iff, any, any-append, ok, err, demand, >>=-eq-ok,
  ok-injective, arith,
}
use hp_http_server.Matrix.Budget.{
  Refusal, already_started, disk_too_small, too_few_files, phase_consumed, deadline_exhausted,
  raw_limit, task_limit, second, FileStat, Usage, Ledger, Budget, Step, and_then, require, is_phase,
  write, check_deadline, scan, check_usage, check, begin_phase, allowance_of, begin,
}
use hp_http_server.Matrix.Budget.Opening.{
  Host, total_of, new_ledger, idle_budget, has_files, is_recovery, check_name, create_ledger,
  check_recovery, open_budget,
}
use hp_http_server.Matrix.Budget.Runs.{Call, run, last_deadline, has_phase, run-Evolves}

and_then-ok :
    (s : Step) (rest : Budget → Step)
    → (and_then s rest).1 ≡ ok tt
    → (s.1 ≡ ok tt) × (and_then s rest ≡ rest s.0)
unfolding and_then
and_then-ok (b, err e) rest h = cc
and_then-ok (b, ok u) rest h = (refl, refl)

require-ok :
    (c : Bool) (e : Refusal) (b : Budget)
    → (require c e b).1 ≡ ok tt
    → (c ≡ true) × ((require c e b).0 ≡ b)
unfolding require
require-ok true e b h = (refl, refl)
require-ok false e b h = cc

-- The usage that the ledger holds is within its limits.
abbrev pub IsWithinLimits : Budget → Type 0
IsWithinLimits b =
    (u : Usage) × (b.ledger.usage ≡ some u)
    × (u.raw_bytes ≤ b.ledger.raw_limit)
    × (u.charged_bytes ≤ b.ledger.task_limit)

check_usage-ok :
    (found : Option Usage) (b : Budget)
    → b.ledger.usage ≡ found
    → (check_usage found b).1 ≡ ok tt
    → IsWithinLimits (check_usage found b).0
unfolding check_usage
check_usage-ok none b e h = cc
check_usage-ok (some u) b e h =
    let (h1, s) =
      and_then-ok (require (leb u.raw_bytes b.ledger.raw_limit) raw_limit b)
        (require (leb u.charged_bytes b.ledger.task_limit) task_limit) h in
    let (raw, same) = require-ok (leb u.raw_bytes b.ledger.raw_limit) raw_limit b h1 in
    let h2 : (require (leb u.charged_bytes b.ledger.task_limit) task_limit b).1 ≡ ok tt =
      ap (λ (c : Budget). (require (leb u.charged_bytes b.ledger.task_limit) task_limit c).1)
        (sym same)
      ∙ ap (λ (c : Step). c.1) (sym s)
      ∙ h in
    let (task, same') = require-ok (leb u.charged_bytes b.ledger.task_limit) task_limit b h2 in
    subst IsWithinLimits
      (sym (
        ap (λ (c : Step). c.0) s
        ∙ ap (λ (c : Budget). (require (leb u.charged_bytes b.ledger.task_limit) task_limit c).0)
            same
        ∙ same'))
      (
        u,
        e,
        leb→le u.raw_bytes b.ledger.raw_limit raw,
        leb→le u.charged_bytes b.ledger.task_limit task,
      )

pub check-ok :
    (now : ℕ) (files : List FileStat) (deadline : Option ℕ) (b : Budget)
    → (check now files deadline b).1 ≡ ok tt
    → (now < b.phase_deadline) × IsWithinLimits (check now files deadline b).0
unfolding check check_deadline
check-ok now files deadline b h =
    let (h1, s) =
      and_then-ok (require (check_deadline now deadline b) deadline_exhausted b)
        (λ c. check_usage (scan now files c).ledger.usage (scan now files c)) h in
    let (late, same) = require-ok (check_deadline now deadline b) deadline_exhausted b h1 in
    let after =
      s
      ∙ ap (λ (c : Budget). check_usage (scan now files c).ledger.usage (scan now files c)) same in
    (
      in_time deadline late,
      subst (λ (c : Step). IsWithinLimits c.0) (sym after)
          (check_usage-ok (scan now files b).ledger.usage (scan now files b) refl
            (ap (λ (c : Step). c.1) (sym after) ∙ h)),
    )
  where
    in_time : (deadline : Option ℕ) → check_deadline now deadline b ≡ true → now < b.phase_deadline
    in_time none late = omega (arith, ltb→lt now (min b.phase_deadline b.phase_deadline) late)
    in_time (some d) late = omega (arith, ltb→lt now (min b.phase_deadline d) late)

-- A budget that was created ends a fixed time after its start, and calls stop ten seconds before.
open_budget-deadline :
    (recovery : Option String) (h : Host) (now now' now'' : ℕ) (b : Budget)
    → open_budget true recovery h now now' now'' ≡ ok b
    → (b.ledger.deadline ≡ now + total_of recovery) × (b.phase_deadline ≡ last_deadline b)
unfolding open_budget create_ledger new_ledger idle_budget write
open_budget-deadline recovery h now now' now'' b e =
    let (_, _, e1) = >>=-eq-ok (check_name recovery h true) _ e in
    let (l, created, e2) = >>=-eq-ok (create_ledger recovery h now) _ e1 in
    let opened : Budget = write now' now'' (idle_budget (is_recovery recovery) none l) in
    let (_, _, e3) = >>=-eq-ok (check_recovery recovery opened.ledger h) _ e2 in
    let (_, _, c1) = >>=-eq-ok (demand (not h.ledger_exists) already_started) _ created in
    let (_, _, c2) = >>=-eq-ok (demand (leb (4 * 1024 * 1024 * 1024) h.free) disk_too_small) _ c1 in
    let (_, _, c3) = >>=-eq-ok (demand (has_files h.soft) too_few_files) _ c2 in
    let same = ok-injective e3 in
    (
      ap (λ (x : Budget). x.ledger.deadline) (sym same)
          ∙ ap (λ (x : Ledger). x.deadline) (sym (ok-injective c3)),
      subst (λ (x : Budget). x.phase_deadline ≡ last_deadline x) same refl,
    )

-- After a budget was created, whatever calls were made of it and whatever they raised, a check that
-- passes leaves more than ten seconds until the end of the role's total time, counted from the
-- creation, and the bytes it knows of are within the limits.
pub check-in_time :
    (recovery : Option String) (h : Host) (now now' now'' : ℕ) (b : Budget) (calls : List Call)
    (time : ℕ) (files : List FileStat) (deadline : Option ℕ)
    → open_budget true recovery h now now' now'' ≡ ok b
    → (check time files deadline (run calls b)).1 ≡ ok tt
    → (time + 10 * second < now + total_of recovery)
      × IsWithinLimits (check time files deadline (run calls b)).0
check-in_time recovery h now now' now'' b calls time files deadline opened passed =
    let (ends, starts) = open_budget-deadline recovery h now now' now'' b opened in
    let (late, limits) = check-ok time files deadline (run calls b) passed in
    let bound : (run calls b).phase_deadline ≤ last_deadline (run calls b) =
      (run-Evolves calls b).in_time (omega (arith, starts)) in
    (omega (arith, ends, late, bound, (run-Evolves calls b).same_deadline), limits)

begin_phase-has_phase :
    (phase : String) (now now' now'' : ℕ) (allowed : Option ℕ) (b : Budget)
    → (begin_phase phase now now' now'' allowed b).1 ≡ ok tt
    → has_phase (begin_phase phase now now' now'' allowed b).0 phase ≡ true
unfolding begin_phase write
begin_phase-has_phase phase now now' now'' none b h = cc
begin_phase-has_phase phase now now' now'' (some allowed) b h =
    any-append (is_phase phase) b.ledger.phases _ ∙ ground (arith, eq_iff phase phase)

begin-has_phase :
    (phase : String) (time : ℕ) (files : List FileStat) (now now' now'' : ℕ) (b : Budget)
    → (begin phase time files now now' now'' b).1 ≡ ok tt
    → has_phase (begin phase time files now now' now'' b).0 phase ≡ true
unfolding begin
begin-has_phase phase time files now now' now'' b h =
    let start_of : Budget → Step =
      λ c. begin_phase phase now now' now'' (allowance_of c.recovery phase) c in
    let (h1, s) =
      and_then-ok (require (not (any (is_phase phase) b.ledger.phases)) phase_consumed b)
        (λ c. and_then (check time files none c) start_of) h in
    let c = (require (not (any (is_phase phase) b.ledger.phases)) phase_consumed b).0 in
    let (h2, s') =
      and_then-ok (check time files none c) start_of (ap (λ (x : Step). x.1) (sym s) ∙ h) in
    let d = (check time files none c).0 in
    subst (λ (x : Step). has_phase x.0 phase ≡ true) (sym (s ∙ s'))
      (begin_phase-has_phase phase now now' now'' (allowance_of d.recovery phase) d
        (ap (λ (x : Step). x.1) (sym (s ∙ s')) ∙ h))

-- Once a phase was begun, it is never begun again: after any calls, a second `begin` of it raises
-- the refusal of a consumed phase and changes nothing.
pub begin_once :
    (phase : String) (time : ℕ) (files : List FileStat) (now now' now'' : ℕ) (b : Budget)
    (calls : List Call) (time2 : ℕ) (files2 : List FileStat) (later later' later'' : ℕ)
    → (begin phase time files now now' now'' b).1 ≡ ok tt
    → begin phase time2 files2 later later' later''
        (run calls (begin phase time files now now' now'' b).0)
      ≡ (run calls (begin phase time files now now' now'' b).0, err phase_consumed)
unfolding begin and_then require
begin_once phase time files now now' now'' b calls time2 files2 later later' later'' h =
    let c = run calls (begin phase time files now now' now'' b).0 in
    let consumed : has_phase c phase ≡ true =
      (run-Evolves calls (begin phase time files now now' now'' b).0).kept_phases phase
        (begin-has_phase phase time files now now' now'' b h) in
    rw consumed refl
