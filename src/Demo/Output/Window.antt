-- ===== src/Demo/Output/Window.antt =====
-- `(pending + block)[-8192:]`, the window that DemoServer in scripts/demo_task_application.py searches.
use Prim.Native.Nat.{ℕ, zero, suc, ◌+◌, ◌-◌, ◌≤◌}
use hp_http_server.Common.{
  ◌≡◌, refl, List, [], ◌∷◌, ◌++◌, length, length-append, arith, ap, sym, ◌∙◌,
}

module _ {ℓ} {A : Type ℓ} where
  abbrev pub drop : ℕ → List A → List A
  drop zero s = s
  drop (suc n) [] = []
  drop (suc n) (c ∷ s) = drop n s

  -- `s[-n:]`, for an n that is not 0.
  abbrev pub last_n : ℕ → List A → List A
  last_n n s = drop (length s - n) s

  length-drop : (n : ℕ) (s : List A) → length (drop n s) ≡ length s - n
  length-drop zero s = omega arith
  length-drop (suc n) [] = omega arith
  length-drop (suc n) (c ∷ s) = omega (arith, length-drop n s)

  drop-append : (n : ℕ) (s t : List A) → n ≤ length s → drop n (s ++ t) ≡ drop n s ++ t
  drop-append zero s t h = refl
  drop-append (suc n) [] t h = absurd (omega arith)
  drop-append (suc n) (c ∷ s) t h = drop-append n s t (omega arith)

  drop_nil : (n : ℕ) → ◌≡◌ {A = List A} (drop n []) []
  drop_nil zero = refl
  drop_nil (suc n) = refl

  drop-drop : (m n k : ℕ) (s : List A) → k ≡ n + m → drop m (drop n s) ≡ drop k s
  drop-drop m zero k s e = ap (λ (j : ℕ). drop j s) (omega arith)
  drop-drop m (suc n) k [] e = drop_nil m ∙ sym (drop_nil k)
  drop-drop m (suc n) zero (c ∷ s) e = absurd (omega arith)
  drop-drop m (suc n) (suc k) (c ∷ s) e = drop-drop m n k s (omega arith)

  drop_end : (n : ℕ) (s : List A) → (u : List A) × (s ≡ u ++ drop n s)
  drop_end zero s = ([], refl)
  drop_end (suc n) [] = ([], refl)
  drop_end (suc n) (c ∷ s) = let (u, e) = drop_end n s in (c ∷ u, ap (λ (x : List A). c ∷ x) e)

  pub length-last_n : (n : ℕ) (s : List A) → length (last_n n s) ≤ n
  length-last_n n s = omega (arith, length-drop (length s - n) s)

  -- The window over the kept bytes is the window over all of them.
  pub last_n-append : (n : ℕ) (s t : List A) → last_n n (last_n n s ++ t) ≡ last_n n (s ++ t)
  last_n-append n s t =
      let joined = drop-append (length s - n) s t (omega arith) in
      ap (λ (x : List A). drop (length (last_n n s ++ t) - n) x) (sym joined)
      ∙ drop-drop (length (last_n n s ++ t) - n) (length s - n) (length (s ++ t) - n) (s ++ t) (
          omega
            (arith, length-append (last_n n s) t, length-append s t, length-drop (length s - n) s))

  -- What is not longer than the window lies in it.
  pub last_n_keeps :
      (n : ℕ) (s t : List A) → length t ≤ n → (u : List A) × (last_n n (s ++ t) ≡ u ++ t)
  last_n_keeps n s t h = (
    drop (length (s ++ t) - n) s,
    drop-append (length (s ++ t) - n) s t (omega (arith, length-append s t)),
  )

  -- The window is an end of the text.
  pub last_n_end : (n : ℕ) (s : List A) → (u : List A) × (s ≡ u ++ last_n n s)
  last_n_end n s = drop_end (length s - n) s
