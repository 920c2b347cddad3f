-- ===== src/Common/Text.antt =====
-- Texts that a program walks: the code points of a `str`, or the bytes of a `bytes`.
use Prim.Native.Char.{code}
use hp_http_server.Common.Tests.{ltb, ◌==◌, if◌then◌else◌, ==_iff, Bool-cases}
use Prim.Native.Nat.{ℕ}
use Prim.Native.String.{String}
use mathlib.Core.Path.{◌≡◌, refl, ap, ◌∙◌}
use mathlib.Core.Logic.{◌↔◌, inl, inr}
use mathlib.Core.Bool.{Bool, true, false, ◌&&◌, ◌||◌}
use mathlib.Core.List.{List, [], ◌∷◌, ◌++◌}
use native.Mathlib.Omega.{arith}
use hp_http_server.Common.Lists.{All}

abbrev pub Text : Type 0
Text = List ℕ

-- A literal. `String` has its own `[]` and `∷`.
abbrev pub codes : String → Text
codes String.[] = []
codes (String.◌∷◌ c s) = code c ∷ codes s

abbrev pub text_eq : Text → Text → Bool
text_eq [] [] = true
text_eq (a ∷ s) (b ∷ t) = a == b && text_eq s t
text_eq _ _ = false

pub text_eq_iff : (s t : Text) → (text_eq s t ≡ true) ↔ (s ≡ t)
text_eq_iff [] [] = (λ h. refl, λ h. refl)
text_eq_iff (a ∷ s) (b ∷ t) = ground (arith, text_eq_iff s t)
text_eq_iff [] (b ∷ t) = (λ h. cc, λ h. cc)
text_eq_iff (a ∷ s) [] = (λ h. cc, λ h. cc)

pub text_eq_refl : (s : Text) → text_eq s s ≡ true
text_eq_refl s = (text_eq_iff s s).1 refl

-- The order of `sorted`.
abbrev pub text_lt : Text → Text → Bool
text_lt [] [] = false
text_lt [] (b ∷ t) = true
text_lt (a ∷ s) [] = false
text_lt (a ∷ s) (b ∷ t) = ltb a b || (a == b && text_lt s t)

pub text_lt_trichotomy :
    (s t : Text) → text_lt s t ≡ false → text_eq s t ≡ false → text_lt t s ≡ true
text_lt_trichotomy [] [] h k = cc
text_lt_trichotomy [] (b ∷ t) h k = cc
text_lt_trichotomy (a ∷ s) [] h k = refl
text_lt_trichotomy (a ∷ s) (b ∷ t) h k = ground (arith, text_lt_trichotomy s t)

pub text_lt_trans : (s t u : Text) → text_lt s t ≡ true → text_lt t u ≡ true → text_lt s u ≡ true
text_lt_trans [] [] u h k = cc
text_lt_trans [] (b ∷ t) [] h k = cc
text_lt_trans [] (b ∷ t) (c ∷ u) h k = refl
text_lt_trans (a ∷ s) [] u h k = cc
text_lt_trans (a ∷ s) (b ∷ t) [] h k = cc
text_lt_trans (a ∷ s) (b ∷ t) (c ∷ u) h k = ground (arith, text_lt_trans s t u)

-- `text.startswith(prefix)`
abbrev pub starts_with : Text → Text → Bool
starts_with s [] = true
starts_with [] (b ∷ t) = false
starts_with (a ∷ s) (b ∷ t) = a == b && starts_with s t

abbrev pub is_empty {ℓ} : {A : Type ℓ} → List A → Bool
is_empty [] = true
is_empty (_ ∷ _) = false

abbrev add_first : ℕ → List Text → List Text
add_first c [] = (c ∷ []) ∷ []
add_first c (w ∷ words) = (c ∷ w) ∷ words

-- `text.split(separator)`, for a separator of one character.
unfoldable pub split_on : ℕ → Text → List Text
split_on sep [] = [] ∷ []
split_on sep (c ∷ s) = let rest = split_on sep s in if c == sep then [] ∷ rest else add_first c rest

-- `separator.join(words)`
unfoldable pub join : ℕ → List Text → Text
join sep [] = []
join sep (w ∷ []) = w
join sep (w ∷ v ∷ words) = w ++ (sep ∷ join sep (v ∷ words))

abbrev pub Lacks : ℕ → Text → Type 0
Lacks sep s = All (λ (c : ℕ). (c == sep) ≡ false) s

split_on_free : (sep : ℕ) (w : Text) → Lacks sep w → split_on sep w ≡ w ∷ []
unfolding split_on
split_on_free sep [] f = refl
split_on_free sep (c ∷ w) (f, fs) = rw (f, split_on_free sep w fs) refl

pub split_on-append :
    (sep : ℕ) (w s : Text) → Lacks sep w → split_on sep (w ++ (sep ∷ s)) ≡ w ∷ split_on sep s
unfolding split_on
split_on-append sep [] s f = rw ((==_iff sep sep).1 refl) refl
split_on-append sep (c ∷ w) s (f, fs) = rw (f, split_on-append sep w s fs) refl

-- The words that are joined are the words that are split off again.
pub split_on-join :
    (sep : ℕ) (w : Text) (words : List Text)
    → All (Lacks sep) (w ∷ words)
    → split_on sep (join sep (w ∷ words)) ≡ w ∷ words
unfolding join
split_on-join sep w [] (f, _) = split_on_free sep w f
split_on-join sep w (v ∷ words) (f, fs) =
    split_on-append sep w (join sep (v ∷ words)) f
    ∙ ap (λ (l : List Text). w ∷ l) (split_on-join sep v words fs)

add_first-Lacks :
    (sep c : ℕ) (words : List Text)
    → (c == sep) ≡ false
    → All (Lacks sep) words
    → All (Lacks sep) (add_first c words)
add_first-Lacks sep c [] f h = ((f, tt), tt)
add_first-Lacks sep c (w ∷ words) f (g, gs) = ((f, g), gs)

-- No word that is split off has the separator.
pub split_on-Lacks : (sep : ℕ) (s : Text) → All (Lacks sep) (split_on sep s)
unfolding split_on
split_on-Lacks sep [] = (tt, tt)
split_on-Lacks sep (c ∷ s) = elim (Bool-cases (c == sep)) [
  | inl same ↦ rw same (tt, split_on-Lacks sep s)
  | inr other ↦ rw other (add_first-Lacks sep c (split_on sep s) other (split_on-Lacks sep s))
]
