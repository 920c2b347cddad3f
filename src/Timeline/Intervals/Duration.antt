-- ===== src/Timeline/Intervals/Duration.antt =====
-- What `interval_union` and `intersection_duration` return, on every input.
use hp_http_server.Common.{
  ℕ, ◌≤◌, ◌-◌, zero, suc, ◌≡◌, Bool, true, false, List, [], ◌∷◌, arith, any, any-reverse,
  sum-map-reverse, ok, err, leb, ◌&&◌, Bool-cases, inl, inr,
}
use mathlib.Core.List.{reverse, reverse-reverse}
use hp_http_server.Timeline.Errors.{reversed_interval}
use hp_http_server.Timeline.Intervals.{
  Interval, sorted, interval_union, clip, intersection_duration,
}
use hp_http_server.Timeline.Intervals.Coverage.{
  holds, covered, covered_points, points_below, points_below-ext, sum-clip,
}
use hp_http_server.Timeline.Intervals.Merging.{
  is_reversed, IsMerged, IsMerged-Disjoint, Merges, merge_loop-Merges, merge_loop-reversed,
  covered-sorted, any-sorted, sorted-Ascending, FitsNext,
}

FitsNext-start : (xs : List Interval) → FitsNext [] xs
FitsNext-start [] = tt
FitsNext-start (x ∷ xs) = tt

union-Merges : (xs : List Interval) → any is_reversed xs ≡ false → Merges [] (sorted xs)
union-Merges xs v =
    merge_loop-Merges [] (sorted xs) tt (sorted-Ascending xs) (FitsNext-start (sorted xs))
      (rw (any-sorted is_reversed xs) v)

-- If some interval ends before it starts, the union is refused.
pub interval_union_errors :
    (xs : List Interval) → any is_reversed xs ≡ true → interval_union xs ≡ err reversed_interval
unfolding interval_union
interval_union_errors xs h = merge_loop-reversed [] (sorted xs) (rw (any-sorted is_reversed xs) h)

-- Oldest first: each interval of a union ends before the next one starts.
abbrev pub IsSeparated : List Interval → Type 0
IsSeparated merged = IsMerged (reverse merged)

-- If no interval is reversed, the union is returned; it holds exactly the points of time that the
-- given intervals hold, its intervals are not reversed, and each ends before the next one starts.
pub interval_union-covers :
    (xs : List Interval)
    → any is_reversed xs ≡ false
    → (merged : List Interval) × (interval_union xs ≡ ok merged)
      × ((t : ℕ) → covered merged t ≡ covered xs t)
      × IsSeparated merged
unfolding interval_union
interval_union-covers xs v =
    let m = union-Merges xs v in
    (
      reverse m.newest,
      m.returned,
      λ t. rw (any-reverse (holds t) m.newest) (rw (m.same t) (rw (covered-sorted xs t))),
      rw (reverse-reverse m.newest) m.separated,
    )

-- If no interval is reversed, the duration is returned and is the number of the points of time in
-- the window that some interval holds: a point that several intervals hold counts once.
pub intersection_duration-eq-covered_points :
    (xs : List Interval) (start end : ℕ)
    → any is_reversed xs ≡ false
    → intersection_duration xs start end ≡ ok (covered_points xs start end)
unfolding intersection_duration
intersection_duration-eq-covered_points xs start end v =
    let m = union-Merges xs v in
    rw m.returned (
      rw (sum-map-reverse (clip start end) m.newest) (
        rw (sum-clip m.newest start end (IsMerged-Disjoint m.newest m.separated)) (
          rw (
            points_below-ext end (λ t. leb start t && covered m.newest t)
              (λ t. leb start t && covered xs t) (λ t. rw (m.same t) (rw (covered-sorted xs t)))))))

window-le : (n start : ℕ) (p : ℕ → Bool) → points_below n (λ t. leb start t && p t) ≤ n - start
window-le zero start p = omega arith
window-le (suc n) start p = ground (arith, window-le n start p)

-- A duration that is returned is at most the length of the window.
pub intersection_duration_bounded :
    (xs : List Interval) (start end d : ℕ)
    → intersection_duration xs start end ≡ ok d
    → d ≤ end - start
unfolding intersection_duration
intersection_duration_bounded xs start end d h = elim (Bool-cases (any is_reversed xs)) [
  | inl bad ↦ ground (arith, interval_union_errors xs bad)
  | inr good ↦ ground (
    arith,
    intersection_duration-eq-covered_points xs start end good,
    window-le end start (covered xs),
  )
]
