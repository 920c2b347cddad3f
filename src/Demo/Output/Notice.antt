-- ===== src/Demo/Output/Notice.antt =====
-- The notice "listening on port N." that the log reader of scripts/demo_task_application.py looks for.
use hp_http_server.Common.{
  ℕ, ◌≡◌, refl, ap, ◌∙◌, some, [], ◌∷◌, ◌++◌, ◌==◌, ==_iff, Bool-cases, Option-cases, inl, inr,
}
use hp_http_server.Common.Text.{Text, codes}
use hp_http_server.Common.Search.{
  span_digits, AllDigits, span_digits-append, span_digits-AllDigits, decimal_from, after_prefix,
  after_prefix_sound,
}
use hp_http_server.Demo.Output.{number_ended, port_at}

-- The notice of a number that is written with these digits.
abbrev pub notice_of : Text → Text
notice_of digits = codes "listening on port " ++ (digits ++ b'.' ∷ [])

pub append_assoc : (s t u : Text) → (s ++ t) ++ u ≡ s ++ (t ++ u)
append_assoc [] t u = refl
append_assoc (c ∷ s) t u = ap (λ (x : Text). c ∷ x) (append_assoc s t u)

-- A text that starts with the notice of the number.
abbrev pub IsNotice : Text → ℕ → Type 0
IsNotice s port =
    (d : ℕ) × (digits rest : Text) × AllDigits (d ∷ digits)
    × (s ≡ codes "listening on port " ++ ((d ∷ digits) ++ (b'.' ∷ rest)))
    × (port ≡ decimal_from 0 (d ∷ digits))

-- A text that starts with a notice, and the digits of its number.
abbrev pub HasGroup : Text → Text → Type 0
HasGroup s group =
    (d : ℕ) × (digits rest : Text) × AllDigits (d ∷ digits)
    × (s ≡ codes "listening on port " ++ ((d ∷ digits) ++ (b'.' ∷ rest)))
    × (group ≡ d ∷ digits)

number_ended_sound :
    (digits s group : Text)
    → number_ended (digits, s) ≡ some group
    → (d : ℕ) × (more rest : Text) × (digits ≡ d ∷ more) × (s ≡ b'.' ∷ rest) × (group ≡ d ∷ more)
number_ended_sound [] s group h = cc
number_ended_sound (d ∷ more) [] group h = cc
number_ended_sound (d ∷ more) (c ∷ s) group h = elim (Bool-cases (c == b'.')) [
  | inl dot ↦ (d, more, s, refl, ap (λ (x : ℕ). x ∷ s) ((==_iff c b'.').0 dot), cc (rw dot at h))
  | inr other ↦ cc (rw other at h)
]

port_at_digits :
    (s group : Text)
    → number_ended (span_digits s) ≡ some group
    → (d : ℕ) × (more rest : Text) × AllDigits (d ∷ more)
      × (s ≡ (d ∷ more) ++ (b'.' ∷ rest))
      × (group ≡ d ∷ more)
port_at_digits s group h =
    let (d, more, rest, e, f, number) =
      number_ended_sound (span_digits s).0 (span_digits s).1 group h in
    let (all, joined) = span_digits-AllDigits s in
    (d, more, rest, rw e at all, rw (e, f) at joined, number)

pub port_at_sound : (s group : Text) → port_at s ≡ some group → HasGroup s group
unfolding port_at
port_at_sound s group h = elim (Option-cases (after_prefix (codes "listening on port ") s)) [
  | inl other ↦ cc (rw other at h)
  | inr (rest, found) ↦
      let (d, more, after, all, e, number) = port_at_digits rest group (rw found at h) in
      (
        d,
        more,
        after,
        all,
        after_prefix_sound (codes "listening on port ") s rest found
            ∙ ap (λ (x : Text). codes "listening on port " ++ x) e,
        number,
      )
]

pub port_at_complete :
    (d : ℕ) (digits rest : Text)
    → AllDigits (d ∷ digits)
    → port_at (notice_of (d ∷ digits) ++ rest) ≡ some (d ∷ digits)
unfolding port_at
port_at_complete d digits rest h =
    ap (λ (x : Text). port_at (codes "listening on port " ++ x))
      (append_assoc (d ∷ digits) (b'.' ∷ []) rest)
    ∙ rw (span_digits-append (d ∷ digits) b'.' rest h refl) refl
