-- ===== src/Common/Http.antt =====
-- The answers of `http.client`, with the bytes that a bounded `read` takes of them.
use Prim.Native.Nat.{ℕ, zero, suc, ◌+◌, ◌≤◌}
use mathlib.Core.Path.{◌≡◌, refl, ap}
use mathlib.Core.Bool.{true}
use mathlib.Core.Option.{Option}
use mathlib.Core.List.{List, [], ◌∷◌}
use native.Mathlib.Omega.{arith}
use hp_http_server.Common.Tests.{leb}
use hp_http_server.Common.Lists.{length}
use hp_http_server.Common.Text.{Text}
use hp_http_server.Common.Raising.{Outcome}

-- The answer to a request; `body` is all that the peer sent.
pub record Response : Type 0 where
  pub status : ℕ
  pub header : Text → Option Text
  pub body : Text

-- A connection that is used for one request and closed: method, path, body and headers.
pub record Client (State : Type 0) : Type 0 where
  pub request :
      Text → Text → Option Text → List (Text × Text) → State → State × Outcome Text Response

abbrev pub take {ℓ} : {A : Type ℓ} → ℕ → List A → List A
take zero s = []
take (suc n) [] = []
take (suc n) (c ∷ s) = c ∷ take n s

-- A read that gave less than it was asked for gave everything.
take_whole {ℓ} : {A : Type ℓ} (n : ℕ) (s : List A) → suc (length (take n s)) ≤ n → take n s ≡ s
take_whole zero s h = absurd (omega arith)
take_whole (suc n) [] h = refl
take_whole {A = A} (suc n) (c ∷ s) h = ap (λ (t : List A). c ∷ t) (take_whole n s (omega arith))

pub take_fits :
    (n : ℕ) (s : Text)
    → leb (length (take (n + 1) s)) n ≡ true
    → (take (n + 1) s ≡ s) × (length s ≤ n)
take_fits n s h =
    let short : length (take (n + 1) s) ≤ n = ground arith in
    let whole = take_whole (n + 1) s (omega (arith, short)) in (whole, rw whole at short)
