-- ===== src/Timeline/Intervals/Merging.antt =====
-- The loop of `interval_union`: sorting, and the state `merged` from round to round.
use hp_http_server.Common.{
  ℕ, ◌≤◌, ◌<◌, ◌≡◌, refl, Bool, true, false, List, [], ◌∷◌, ◌||◌, arith, ltb, any, All, Bool-cases,
  inl, inr, ok, err,
}
use mathlib.Core.List.{reverse}
use hp_http_server.Timeline.Errors.{reversed_interval}
use hp_http_server.Timeline.Intervals.{Interval, pair_le, insert_sorted, sorted, absorb, merge_loop}
use hp_http_server.Timeline.Intervals.Coverage.{holds, covered, Disjoint}

covered-insert_sorted :
    (x : Interval) (ys : List Interval) (t : ℕ)
    → covered (insert_sorted x ys) t ≡ (holds t x || covered ys t)
unfolding insert_sorted
covered-insert_sorted x [] t = refl
covered-insert_sorted x (y ∷ ys) t = ground (arith, covered-insert_sorted x ys t)

pub covered-sorted : (xs : List Interval) (t : ℕ) → covered (sorted xs) t ≡ covered xs t
unfolding sorted
covered-sorted [] t = refl
covered-sorted (x ∷ xs) t = rw (covered-insert_sorted x (sorted xs) t) (rw (covered-sorted xs t))

-- Every interval of the list starts at or after the point.
abbrev pub StartsFrom : ℕ → List Interval → Type 0
StartsFrom low xs = All (λ (x : Interval). low ≤ x.0) xs

abbrev pub Ascending : List Interval → Type 0
Ascending [] = Unit
Ascending (x ∷ xs) = StartsFrom x.0 xs × Ascending xs

StartsFrom-insert_sorted :
    (low : ℕ) (x : Interval) (ys : List Interval)
    → low ≤ x.0
    → StartsFrom low ys
    → StartsFrom low (insert_sorted x ys)
unfolding insert_sorted
StartsFrom-insert_sorted low x [] h hs = (h, tt)
StartsFrom-insert_sorted low x (y ∷ ys) h hs =
    ground (arith, StartsFrom-insert_sorted low x ys h hs.1)

StartsFrom-mono :
    (low high : ℕ) (xs : List Interval) → low ≤ high → StartsFrom high xs → StartsFrom low xs
StartsFrom-mono low high [] h hs = tt
StartsFrom-mono low high (x ∷ xs) h hs = (omega arith, StartsFrom-mono low high xs h hs.1)

Ascending-insert_sorted :
    (x : Interval) (ys : List Interval) → Ascending ys → Ascending (insert_sorted x ys)
unfolding insert_sorted
Ascending-insert_sorted x [] h = (tt, tt)
Ascending-insert_sorted x (y ∷ ys) h = elim (Bool-cases (pair_le x y)) [
  | inl before ↦
      rw before
        ((pair_le-starts x y before, StartsFrom-mono x.0 y.0 ys (pair_le-starts x y before) h.0), h)
  | inr after ↦ rw after (
    StartsFrom-insert_sorted y.0 x ys (pair_gt-starts x y after) h.0,
    Ascending-insert_sorted x ys h.1,
  )
]
  where
    pair_le-starts : (x y : Interval) → pair_le x y ≡ true → x.0 ≤ y.0
    pair_le-starts x y e = ground arith

    pair_gt-starts : (x y : Interval) → pair_le x y ≡ false → y.0 ≤ x.0
    pair_gt-starts x y e = ground arith

pub sorted-Ascending : (xs : List Interval) → Ascending (sorted xs)
unfolding sorted
sorted-Ascending [] = tt
sorted-Ascending (x ∷ xs) = Ascending-insert_sorted x (sorted xs) (sorted-Ascending xs)

-- `merged`, newest first: each interval ends before the one found after it begins.
abbrev pub IsMerged : List Interval → Type 0
IsMerged [] = Unit
IsMerged (x ∷ []) = x.0 ≤ x.1
IsMerged (x ∷ y ∷ merged) = (x.0 ≤ x.1) × (y.1 < x.0) × IsMerged (y ∷ merged)

-- The next interval starts at or after the newest one.
abbrev pub FitsAfter : List Interval → ℕ → Type 0
FitsAfter [] low = Unit
FitsAfter (x ∷ merged) low = x.0 ≤ low

absorb-IsMerged :
    (x : Interval) (merged : List Interval)
    → x.0 ≤ x.1
    → IsMerged merged
    → FitsAfter merged x.0
    → IsMerged (absorb x merged)
unfolding absorb
absorb-IsMerged x [] h m f = h
absorb-IsMerged x (y ∷ []) h m f = ground arith
absorb-IsMerged x (y ∷ z ∷ merged) h m f = ground arith

absorb-FitsAfter :
    (x : Interval) (merged : List Interval) (low : ℕ)
    → x.0 ≤ low
    → FitsAfter merged x.0
    → FitsAfter (absorb x merged) low
unfolding absorb
absorb-FitsAfter x [] low h f = h
absorb-FitsAfter x (y ∷ merged) low h f = ground arith

covered-absorb :
    (x : Interval) (merged : List Interval) (t : ℕ)
    → x.0 ≤ x.1
    → IsMerged merged
    → FitsAfter merged x.0
    → covered (absorb x merged) t ≡ (holds t x || covered merged t)
unfolding absorb
covered-absorb x [] t h m f = refl
covered-absorb x (y ∷ []) t h m f = ground arith
covered-absorb x (y ∷ z ∷ merged) t h m f = ground arith

-- What follows the newest merged interval covers nothing at or after its end.
covered-merged_after :
    (y : Interval) (merged : List Interval) (t : ℕ)
    → IsMerged (y ∷ merged)
    → y.1 ≤ t
    → covered (y ∷ merged) t ≡ false
covered-merged_after y [] t m h = ground arith
covered-merged_after y (z ∷ merged) t m h = ground (arith, covered-merged_after z merged t m.2)

pub IsMerged-Disjoint : (merged : List Interval) → IsMerged merged → Disjoint merged
IsMerged-Disjoint [] m = tt
IsMerged-Disjoint (x ∷ []) m = (λ t. ground arith, tt)
IsMerged-Disjoint (x ∷ y ∷ merged) m =
    (λ t. ground (arith, covered-merged_after y merged t m.2), IsMerged-Disjoint (y ∷ merged) m.2)

-- Intervals with the end before the start are the ones that the code rejects.
abbrev pub is_reversed : Interval → Bool
is_reversed (left, right) = ltb right left

abbrev pub FitsNext : List Interval → List Interval → Type 0
FitsNext merged [] = Unit
FitsNext merged (x ∷ rest) = FitsAfter merged x.0

FitsNext-absorb :
    (x : Interval) (merged rest : List Interval)
    → FitsAfter merged x.0
    → Ascending (x ∷ rest)
    → FitsNext (absorb x merged) rest
FitsNext-absorb x merged [] f a = tt
FitsNext-absorb x merged (y ∷ rest) f a = absorb-FitsAfter x merged y.0 a.0.0 f

-- The loop's result, newest first.
pub record Merges (merged rest : List Interval) : Type 0 where
  pub newest : List Interval
  pub returned : merge_loop merged rest ≡ ok (reverse newest)
  pub separated : IsMerged newest
  pub same : (t : ℕ) → covered newest t ≡ (covered merged t || covered rest t)

pub merge_loop-Merges :
    (merged rest : List Interval)
    → IsMerged merged
    → Ascending rest
    → FitsNext merged rest
    → any is_reversed rest ≡ false
    → Merges merged rest
unfolding merge_loop
merge_loop-Merges merged [] m a f v = record {
  newest = merged;
  returned = refl;
  separated = m;
  same = λ t. ground arith;
}
merge_loop-Merges merged (x ∷ rest) m a f v =
    let valid : ltb x.1 x.0 ≡ false = ground arith in
    let step =
      merge_loop-Merges (absorb x merged) rest (absorb-IsMerged x merged (ground arith) m f) a.1
        (FitsNext-absorb x merged rest f a) (ground arith) in
    record {
      newest = step.newest;
      returned = ground (arith, step.returned);
      separated = step.separated;
      same = λ t. ground (arith, step.same t, covered-absorb x merged t (ground arith) m f);
    }

pub merge_loop-reversed :
    (merged rest : List Interval)
    → any is_reversed rest ≡ true
    → merge_loop merged rest ≡ err reversed_interval
unfolding merge_loop
merge_loop-reversed merged [] h = cc
merge_loop-reversed merged (x ∷ rest) h = ground (arith, merge_loop-reversed (absorb x merged) rest)

any-insert_sorted :
    (p : Interval → Bool) (x : Interval) (ys : List Interval)
    → any p (insert_sorted x ys) ≡ (p x || any p ys)
unfolding insert_sorted
any-insert_sorted p x [] = refl
any-insert_sorted p x (y ∷ ys) = ground (arith, any-insert_sorted p x ys)

pub any-sorted : (p : Interval → Bool) (xs : List Interval) → any p (sorted xs) ≡ any p xs
unfolding sorted
any-sorted p [] = refl
any-sorted p (x ∷ xs) = rw (any-insert_sorted p x (sorted xs)) (rw (any-sorted p xs))
