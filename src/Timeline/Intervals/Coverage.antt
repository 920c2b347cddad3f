-- ===== src/Timeline/Intervals/Coverage.antt =====
-- The independent description of busy time: the points of time that some interval covers.
use hp_http_server.Common.{
  ℕ, zero, suc, ◌+◌, ◌≡◌, refl, Bool, false, List, [], ◌∷◌, ◌||◌, ◌&&◌, arith, ltb, leb,
  if◌then◌else◌, any, sum, map,
}
use hp_http_server.Timeline.Intervals.{Interval, clip}

-- Whether the half-open interval holds the point.
abbrev pub holds : ℕ → Interval → Bool
holds t (left, right) = leb left t && ltb t right

abbrev pub covered : List Interval → ℕ → Bool
covered intervals t = any (holds t) intervals

-- How many of the points `0 … n - 1` pass the test.
abbrev pub points_below : ℕ → (ℕ → Bool) → ℕ
points_below zero p = 0
points_below (suc n) p = points_below n p + (if p n then 1 else 0)

-- The points of the window `start … end - 1` that some interval covers.
abbrev pub covered_points : List Interval → ℕ → ℕ → ℕ
covered_points intervals start end = points_below end (λ t. leb start t && covered intervals t)

pub points_below-ext :
    (n : ℕ) (p q : ℕ → Bool) → ((t : ℕ) → p t ≡ q t) → points_below n p ≡ points_below n q
points_below-ext zero p q h = refl
points_below-ext (suc n) p q h = ground (arith, h n, points_below-ext n p q h)

pub points_below-none : (n : ℕ) (p : ℕ → Bool) → ((t : ℕ) → p t ≡ false) → points_below n p ≡ 0
points_below-none zero p h = refl
points_below-none (suc n) p h = ground (arith, h n, points_below-none n p h)

pub points_below-or :
    (n : ℕ) (p q : ℕ → Bool)
    → ((t : ℕ) → (p t && q t) ≡ false)
    → points_below n (λ t. p t || q t) ≡ points_below n p + points_below n q
points_below-or zero p q h = omega arith
points_below-or (suc n) p q h = ground (arith, h n, points_below-or n p q h)

-- One interval covers as many points of the window as the clipped interval is long.
pub points_below-holds :
    (n start : ℕ) (i : Interval) → points_below n (λ t. leb start t && holds t i) ≡ clip start n i
unfolding clip
points_below-holds zero start (left, right) = omega arith
points_below-holds (suc n) start (left, right) =
    ground (arith, points_below-holds n start (left, right))

-- No point of time lies in two intervals of the list.
abbrev pub Disjoint : List Interval → Type 0
Disjoint [] = Unit
Disjoint (i ∷ rest) = ((t : ℕ) → (holds t i && covered rest t) ≡ false) × Disjoint rest

and_or : (a b c : Bool) → (a && (b || c)) ≡ ((a && b) || (a && c))
and_or a b c = ground arith

and_and : (a b c : Bool) → (b && c) ≡ false → ((a && b) && (a && c)) ≡ false
and_and a b c h = ground arith

-- For disjoint intervals the sum of the clipped lengths counts every covered point once.
pub sum-clip :
    (intervals : List Interval) (start end : ℕ)
    → Disjoint intervals
    → sum (map (clip start end) intervals) ≡ covered_points intervals start end
sum-clip [] start end h = rw (points_below-none end (λ t. leb start t && false) (λ t. ground arith))
sum-clip (i ∷ rest) start end h =
    let mine = λ (t : ℕ). leb start t && holds t i in
    let others = λ (t : ℕ). leb start t && covered rest t in
    rw
      (points_below-ext end (λ t. leb start t && covered (i ∷ rest) t) (λ t. mine t || others t)
        (λ t. and_or (leb start t) (holds t i) (covered rest t)))
      (rw
        (points_below-or end mine others
          (λ t. and_and (leb start t) (holds t i) (covered rest t) (h.0 t)))
        (omega (arith, points_below-holds end start i, sum-clip rest start end h.1)))
