-- ===== src/Matrix/Budget/Runs.antt =====
-- What holds of a budget over every sequence of its calls, whether they raise or not.
use hp_http_server.Common.{
  ℕ, ◌-◌, ◌*◌, ◌≤◌, ◌≡◌, refl, ◌∙◌, sym, Bool, true, false, not, Option, none, some, List, [], ◌∷◌,
  String, str_eq, some-injective, leb, Bool-cases, Option-cases, inl, inr, any, any-append, ok, err,
  arith,
}
use hp_http_server.Matrix.Budget.{
  Refusal, phase_consumed, deadline_exhausted, raw_limit, task_limit, second, FileStat, Usage,
  PhaseRow, Budget, Step, and_then, require, is_phase, write, check_deadline, scan, check_usage,
  check, begin_phase, allowance_of, begin, end_phase, finish_usage, finish_rows, finish_phase,
  finish,
}

-- A call from outside, with what it reads.
pub data Call : Type 0 where
  checked : (now : ℕ) (files : List FileStat) (deadline : Option ℕ) → Call
  begun : (phase : String) (time : ℕ) (files : List FileStat) (now now' now'' : ℕ) → Call
  finished :
      (status : String) (error : Option String) (now : ℕ) (files : List FileStat) (now' now'' : ℕ)
      → Call

unfoldable pub apply : Call → Budget → Step
unfolding check begin finish
apply (checked now files deadline) b = check now files deadline b
apply (begun phase time files now now' now'') b = begin phase time files now now' now'' b
apply (finished status error now files now' now'') b = finish status error now files now' now'' b

-- The object after the calls: what they raise is caught outside.
unfoldable pub run : List Call → Budget → Budget
unfolding apply
run [] b = b
run (c ∷ calls) b = run calls (apply c b).0

abbrev pub last_deadline : Budget → ℕ
last_deadline b = b.ledger.deadline - 10 * second

abbrev pub has_phase : Budget → String → Bool
has_phase b phase = any (is_phase phase) b.ledger.phases

-- What no call changes, or changes in one direction only.
pub record Evolves (b b' : Budget) : Type 0 where
  pub same_deadline : b'.ledger.deadline ≡ b.ledger.deadline
  pub same_raw_limit : b'.ledger.raw_limit ≡ b.ledger.raw_limit
  pub same_task_limit : b'.ledger.task_limit ≡ b.ledger.task_limit
  pub kept_phases : (phase : String) → has_phase b phase ≡ true → has_phase b' phase ≡ true
  pub in_time : b.phase_deadline ≤ last_deadline b → b'.phase_deadline ≤ last_deadline b'

pub Evolves-refl : (b : Budget) → Evolves b b
Evolves-refl b = record {
  same_deadline = refl;
  same_raw_limit = refl;
  same_task_limit = refl;
  kept_phases = λ phase h. h;
  in_time = λ h. h;
}

pub Evolves-trans : (a b c : Budget) → Evolves a b → Evolves b c → Evolves a c
Evolves-trans a b c f g = record {
  same_deadline = g.same_deadline ∙ f.same_deadline;
  same_raw_limit = g.same_raw_limit ∙ f.same_raw_limit;
  same_task_limit = g.same_task_limit ∙ f.same_task_limit;
  kept_phases = λ phase h. g.kept_phases phase (f.kept_phases phase h);
  in_time = λ h. g.in_time (f.in_time h);
}

and_then-Evolves :
    (b : Budget) (s : Step) (rest : Budget → Step)
    → Evolves b s.0
    → ((b' : Budget) → Evolves b' (rest b').0)
    → Evolves b (and_then s rest).0
unfolding and_then
and_then-Evolves b (b', err e) rest f g = f
and_then-Evolves b (b', ok u) rest f g = Evolves-trans b b' (rest b').0 f (g b')

require-Evolves : (c : Bool) (e : Refusal) (b : Budget) → Evolves b (require c e b).0
unfolding require
require-Evolves true e b = Evolves-refl b
require-Evolves false e b = Evolves-refl b

write-Evolves : (now now' : ℕ) (b : Budget) → Evolves b (write now now' b)
unfolding write
write-Evolves now now' b = record {
  same_deadline = refl;
  same_raw_limit = refl;
  same_task_limit = refl;
  kept_phases = λ phase h. h;
  in_time = λ h. h;
}

scan-Evolves : (now : ℕ) (files : List FileStat) (b : Budget) → Evolves b (scan now files b)
unfolding scan
scan-Evolves now files b = elim (Bool-cases (leb second (now - b.last_scan))) [
  | inl due ↦ rw due (record {
    same_deadline = refl;
    same_raw_limit = refl;
    same_task_limit = refl;
    kept_phases = λ phase h. h;
    in_time = λ h. h;
  })
  | inr recent ↦ rw recent (Evolves-refl b)
]

check_usage-Evolves : (u : Option Usage) (b : Budget) → Evolves b (check_usage u b).0
unfolding check_usage
check_usage-Evolves none b = Evolves-refl b
check_usage-Evolves (some u) b =
    and_then-Evolves b _ _ (require-Evolves (leb u.raw_bytes b.ledger.raw_limit) raw_limit b)
      (require-Evolves (leb u.charged_bytes b.ledger.task_limit) task_limit)

check-Evolves :
    (now : ℕ) (files : List FileStat) (deadline : Option ℕ) (b : Budget)
    → Evolves b (check now files deadline b).0
unfolding check
check-Evolves now files deadline b =
    and_then-Evolves b _ _ (require-Evolves (check_deadline now deadline b) deadline_exhausted b)
      (λ b'.
        Evolves-trans b' (scan now files b') _ (scan-Evolves now files b')
          (check_usage-Evolves (scan now files b').ledger.usage (scan now files b')))

begin_phase-Evolves :
    (phase : String) (now now' now'' : ℕ) (allowed : Option ℕ) (b : Budget)
    → Evolves b (begin_phase phase now now' now'' allowed b).0
unfolding begin_phase write
begin_phase-Evolves phase now now' now'' none b = record {
  same_deadline = refl;
  same_raw_limit = refl;
  same_task_limit = refl;
  kept_phases = λ phase h. h;
  in_time = λ h. h;
}
begin_phase-Evolves phase now now' now'' (some allowed) b = record {
  same_deadline = refl;
  same_raw_limit = refl;
  same_task_limit = refl;
  kept_phases = λ other h. any-append (is_phase other) b.ledger.phases _ ∙ rw h refl;
  in_time = λ h. omega arith;
}

begin-Evolves :
    (phase : String) (time : ℕ) (files : List FileStat) (now now' now'' : ℕ) (b : Budget)
    → Evolves b (begin phase time files now now' now'' b).0
unfolding begin
begin-Evolves phase time files now now' now'' b =
    and_then-Evolves b (require (not (any (is_phase phase) b.ledger.phases)) phase_consumed b)
      (λ b'.
        and_then (check time files none b')
          (λ c. begin_phase phase now now' now'' (allowance_of c.recovery phase) c))
      (require-Evolves (not (any (is_phase phase) b.ledger.phases)) phase_consumed b)
      (λ b'.
        and_then-Evolves b' (check time files none b')
          (λ c. begin_phase phase now now' now'' (allowance_of c.recovery phase) c)
          (check-Evolves time files none b')
          (λ c. begin_phase-Evolves phase now now' now'' (allowance_of c.recovery phase) c))

-- The end of a phase changes no name.
end_phase-has_phase :
    (phase status : String) (error : Option String) (now : ℕ) (other : String)
    (rows ended : List PhaseRow)
    → end_phase phase status error now rows ≡ some ended
    → any (is_phase other) rows ≡ true
    → any (is_phase other) ended ≡ true
unfolding end_phase
end_phase-has_phase phase status error now other [] ended h k = cc
end_phase-has_phase phase status error now other (r ∷ rows) ended h k =
    elim (Bool-cases (is_phase phase r)) [
      | inl here ↦ rw (sym (some-injective _ _ (rw (here, end_phase) at h))) k
      | inr later ↦ elim (Option-cases (end_phase phase status error now rows)) [
        | inl lost ↦ cc (rw (later, lost) at h)
        | inr (rest, found) ↦
            rw (sym (some-injective _ _ (rw (later, found) at h)))
              (elim (Bool-cases (is_phase other r)) [
                | inl this ↦ rw this refl
                | inr that ↦ rw that (
                    end_phase-has_phase phase status error now other rows rest found (rw that at k))
              ])
      ]
    ]

finish_usage-Evolves :
    (files : List FileStat) (now' now'' : ℕ) (b : Budget)
    → Evolves b (finish_usage files now' now'' b).0
unfolding finish_usage write
finish_usage-Evolves files now' now'' b = record {
  same_deadline = refl;
  same_raw_limit = refl;
  same_task_limit = refl;
  kept_phases = λ phase h. h;
  in_time = λ h. h;
}

finish_rows-Evolves :
    (phase status : String) (error : Option String) (now : ℕ) (files : List FileStat)
    (now' now'' : ℕ) (b : Budget) (found : Option (List PhaseRow))
    → end_phase phase status error now b.ledger.phases ≡ found
    → Evolves b (finish_rows found files now' now'' b).0
unfolding finish_rows
finish_rows-Evolves phase status error now files now' now'' b none h = Evolves-refl b
finish_rows-Evolves phase status error now files now' now'' b (some rows) h =
    Evolves-trans b (record b { ledger = record b.ledger { phases = rows } }) _
      (record {
        same_deadline = refl;
        same_raw_limit = refl;
        same_task_limit = refl;
        kept_phases =
            λ other k. end_phase-has_phase phase status error now other b.ledger.phases rows h k;
        in_time = λ k. k;
      })
      (finish_usage-Evolves files now' now''
        (record b { ledger = record b.ledger { phases = rows } }))

finish_phase-Evolves :
    (phase : Option String) (status : String) (error : Option String) (now : ℕ)
    (files : List FileStat) (now' now'' : ℕ) (b : Budget)
    → Evolves b (finish_phase phase status error now files now' now'' b).0
unfolding finish_phase
finish_phase-Evolves none status error now files now' now'' b =
    finish_usage-Evolves files now' now'' b
finish_phase-Evolves (some phase) status error now files now' now'' b =
    elim (Bool-cases (str_eq phase "")) [
      | inl empty ↦ rw empty (finish_usage-Evolves files now' now'' b)
      | inr named ↦ rw named (
          finish_rows-Evolves phase status error now files now' now'' b
            (end_phase phase status error now b.ledger.phases) refl)
    ]

apply-Evolves : (c : Call) (b : Budget) → Evolves b (apply c b).0
unfolding apply finish
apply-Evolves (checked now files deadline) b = check-Evolves now files deadline b
apply-Evolves (begun phase time files now now' now'') b =
    begin-Evolves phase time files now now' now'' b
apply-Evolves (finished status error now files now' now'') b =
    finish_phase-Evolves b.phase status error now files now' now'' b

pub run-Evolves : (calls : List Call) (b : Budget) → Evolves b (run calls b)
unfolding run
run-Evolves [] b = Evolves-refl b
run-Evolves (c ∷ calls) b =
    Evolves-trans b (apply c b).0 _ (apply-Evolves c b) (run-Evolves calls (apply c b).0)
