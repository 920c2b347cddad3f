-- ===== src/Timeline/Intervals.antt =====
-- `interval_union` and `intersection_duration` of benchmark/tail-localization/analyze.py.
-- Times are nanoseconds, natural numbers: `max(0, a - b)` is the truncated `a - b`.
pub mod Duration
pub mod Merging
pub mod Coverage
use hp_http_server.Common.{
  ℕ, ◌-◌, min, max, Bool, List, [], ◌∷◌, ◌||◌, ◌&&◌, map, sum, ltb, leb, ◌==◌, if◌then◌else◌,
  Outcome, ok, err, ◌>>=◌,
}
use mathlib.Core.List.{reverse}
use hp_http_server.Timeline.Errors.{Invalid, reversed_interval}

abbrev pub Interval : Type 0
Interval = ℕ × ℕ

-- Python's order on pairs, and `sorted` with it.
abbrev pub pair_le : Interval → Interval → Bool
pair_le (a, b) (c, d) = ltb a c || (a == c && leb b d)

unfoldable pub insert_sorted : Interval → List Interval → List Interval
insert_sorted x [] = x ∷ []
insert_sorted x (y ∷ ys) = if pair_le x y then x ∷ y ∷ ys else y ∷ insert_sorted x ys

unfoldable pub sorted : List Interval → List Interval
unfolding insert_sorted
sorted [] = []
sorted (x ∷ xs) = insert_sorted x (sorted xs)

-- One round of the loop on `merged`, whose last item `merged[-1]` stands at the head here.
unfoldable pub absorb : Interval → List Interval → List Interval
absorb (start, end) [] = (start, end) ∷ []
absorb (start, end) ((left, right) ∷ merged) =
    if leb start right
    then (left, max end right) ∷ merged
    else (start, end) ∷ (left, right) ∷ merged

unfoldable pub merge_loop : List Interval → List Interval → Outcome Invalid (List Interval)
unfolding absorb
merge_loop merged [] = ok (reverse merged)
merge_loop merged ((start, end) ∷ rest) =
    if ltb end start then err reversed_interval else merge_loop (absorb (start, end) merged) rest

unfoldable pub interval_union : List Interval → Outcome Invalid (List Interval)
unfolding sorted merge_loop
interval_union intervals = merge_loop [] (sorted intervals)

-- `max(0, min(right, end) - max(left, start))`
unfoldable pub clip : ℕ → ℕ → Interval → ℕ
clip start end (left, right) = min right end - max left start

unfoldable pub intersection_duration : List Interval → ℕ → ℕ → Outcome Invalid ℕ
unfolding interval_union clip
intersection_duration intervals start end = do
  merged ← interval_union intervals
  ok (sum (map (clip start end) merged))
