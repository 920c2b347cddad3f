-- ===== src/Common/Search.antt =====
-- Searches for a pattern in a text, as `re` makes them for patterns whose parts exclude one another.
use Prim.Native.Nat.{ℕ, ◌+◌, ◌-◌, ◌*◌}
use mathlib.Core.Path.{sym, ◌≡◌, refl, ap, ◌∙◌}
use mathlib.Core.Logic.{inl, inr}
use mathlib.Core.Bool.{Bool, true, false, ◌&&◌}
use mathlib.Core.Option.{Option, none, some, some-injective}
use mathlib.Core.List.{[], ◌∷◌, ◌++◌}
use hp_http_server.Common.Tests.{leb, ◌==◌, ==_iff, if◌then◌else◌, Bool-cases, Option-cases}
use hp_http_server.Common.Lists.{All, length}
use hp_http_server.Common.Text.{Text}

infixl 5 ◌>>=◌
abbrev pub ◌>>=◌ {ℓ κ} : {A : Type ℓ} {B : Type κ} → Option A → (A → Option B) → Option B
none >>= k = none
some a >>= k = k a

abbrev pub is_digit : ℕ → Bool
is_digit c = leb b'0' c && leb c b'9'

-- `\d+` at the head of the text, and what follows it.
unfoldable pub span_digits : Text → Text × Text
span_digits [] = ([], [])
span_digits (c ∷ s) =
    let rest = span_digits s in if is_digit c then (c ∷ rest.0, rest.1) else ([], c ∷ s)

abbrev pub AllDigits : Text → Type 0
AllDigits s = All (λ (c : ℕ). is_digit c ≡ true) s

pub span_digits-append :
    (digits : Text) (c : ℕ) (s : Text)
    → AllDigits digits
    → is_digit c ≡ false
    → span_digits (digits ++ (c ∷ s)) ≡ (digits, c ∷ s)
unfolding span_digits
span_digits-append [] c s h stop = rw stop refl
span_digits-append (d ∷ digits) c s (h, hs) stop =
    rw (h, span_digits-append digits c s hs stop) refl

pub span_digits-AllDigits :
    (s : Text) → AllDigits (span_digits s).0 × (s ≡ (span_digits s).0 ++ (span_digits s).1)
unfolding span_digits
span_digits-AllDigits [] = (tt, refl)
span_digits-AllDigits (c ∷ s) = elim (Bool-cases (is_digit c)) [
  | inl digit ↦
      let (hs, e) = span_digits-AllDigits s in rw digit ((digit, hs), ap (λ (x : Text). c ∷ x) e)
  | inr other ↦ rw other (tt, refl)
]

-- `int` of decimal digits.
unfoldable pub decimal_from : ℕ → Text → ℕ
decimal_from n [] = n
decimal_from n (c ∷ digits) = decimal_from (n * 10 + (c - b'0')) digits

-- `int` of a text of decimal digits, which raises if it has more than 4300 of them.
abbrev pub int_of : Text → Option ℕ
int_of digits = if leb (length digits) 4300 then some (decimal_from 0 digits) else none

pub int_of_sound : (digits : Text) (n : ℕ) → int_of digits ≡ some n → n ≡ decimal_from 0 digits
int_of_sound digits n h = elim (Bool-cases (leb (length digits) 4300)) [
  | inl small ↦ sym (some-injective (decimal_from 0 digits) n (rw small at h))
  | inr large ↦ cc (rw large at h)
]

-- What is left behind the prefix.
unfoldable pub after_prefix : Text → Text → Option Text
after_prefix [] s = some s
after_prefix (p ∷ prefix) [] = none
after_prefix (p ∷ prefix) (c ∷ s) = if p == c then after_prefix prefix s else none

pub after_prefix-append : (prefix s : Text) → after_prefix prefix (prefix ++ s) ≡ some s
unfolding after_prefix
after_prefix-append [] s = refl
after_prefix-append (p ∷ prefix) s = rw ((==_iff p p).1 refl) (after_prefix-append prefix s)

pub after_prefix_sound :
    (prefix s rest : Text) → after_prefix prefix s ≡ some rest → s ≡ prefix ++ rest
unfolding after_prefix
after_prefix_sound [] s rest h = some-injective s rest h
after_prefix_sound (p ∷ prefix) [] rest h = cc
after_prefix_sound (p ∷ prefix) (c ∷ s) rest h = elim (Bool-cases (p == c)) [
  | inl same ↦ cc (after_prefix_sound prefix s rest (rw same at h), (==_iff p c).0 same)
  | inr other ↦ cc (rw other at h)
]

-- `re.search`: the first place at which the pattern matches.
unfoldable pub search_text {ℓ} : {A : Type ℓ} → (Text → Option A) → Text → Option A
search_text at [] = at []
search_text at (c ∷ s) =
    let rest = search_text at s in elim (at (c ∷ s)) [ some found ↦ some found | none ↦ rest ]

module _ {ℓ} {A : Type ℓ} (at : Text → Option A) where
  -- What is found is a match at some place.
  pub search_text_sound :
      (s : Text) (a : A)
      → search_text at s ≡ some a
      → (before rest : Text) × (s ≡ before ++ rest) × (at rest ≡ some a)
  unfolding search_text
  search_text_sound [] a h = ([], [], refl, h)
  search_text_sound (c ∷ s) a h = elim (Option-cases (at (c ∷ s))) [
    | inr (b, here) ↦ ([], c ∷ s, refl, here ∙ (rw (here, search_text) at h))
    | inl elsewhere ↦
        let (before, rest, e, found) = search_text_sound s a (rw (elsewhere, search_text) at h) in
        (c ∷ before, rest, ap (λ (x : Text). c ∷ x) e, found)
  ]

  -- A match at some place makes the search succeed.
  pub search_text_complete :
      (before rest : Text) (a : A)
      → at rest ≡ some a
      → (b : A) × (search_text at (before ++ rest) ≡ some b)
  unfolding search_text
  search_text_complete [] [] a h = (a, h)
  search_text_complete [] (c ∷ s) a h = (a, rw h refl)
  search_text_complete (c ∷ before) rest a h =
      let (b, found) = search_text_complete before rest a h in
      elim (Option-cases (at (c ∷ (before ++ rest)))) [
        | inr (d, here) ↦ (d, rw here refl)
        | inl elsewhere ↦ (b, rw (elsewhere, found) refl)
      ]
