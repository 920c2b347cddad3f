-- ===== src/Decoder/Merge/Sorted.antt =====
-- The merge of the rows is a rearrangement of them, in the order of the tuples.
use mathlib.Core.List.{Permᴰ}
use mathlib.Core.List.Permᴰ
use hp_http_server.Common.{◌≡◌, refl, true, false, List, [], ◌∷◌, Bool-cases, inl, inr, All, arith}
use hp_http_server.Decoder.Threads.{Row}
use hp_http_server.Decoder.Merge.{row_le, insert_row, merge_rows}

row_le_total : (a b : Row) → row_le a b ≡ false → row_le b a ≡ true
row_le_total a b h = ground arith

row_le_trans : (a b c : Row) → row_le a b ≡ true → row_le b c ≡ true → row_le a c ≡ true
row_le_trans a b c h k = ground arith

-- Every row is at most each later one.
abbrev pub IsMerged : List Row → Type 0
IsMerged [] = Unit {0}
IsMerged (r ∷ rows) = All (λ s. row_le r s ≡ true) rows × IsMerged rows

insert_row-All :
    (P : Row → Type 0) (r : Row) (rows : List Row) → P r → All P rows → All P (insert_row r rows)
unfolding insert_row
insert_row-All P r [] p h = (p, tt)
insert_row-All P r (s ∷ rows) p h = elim (Bool-cases (row_le r s)) [
  | inl first ↦ rw first (p, h)
  | inr later ↦ rw later (h.0, insert_row-All P r rows p h.1)
]

row_le-All :
    (r s : Row) (rows : List Row)
    → row_le r s ≡ true
    → All (λ x. row_le s x ≡ true) rows
    → All (λ x. row_le r x ≡ true) rows
row_le-All r s [] h a = tt
row_le-All r s (x ∷ rows) h a = (row_le_trans r s x h a.0, row_le-All r s rows h a.1)

insert_row-IsMerged : (r : Row) (rows : List Row) → IsMerged rows → IsMerged (insert_row r rows)
unfolding insert_row
insert_row-IsMerged r [] m = (tt, tt)
insert_row-IsMerged r (s ∷ rows) m = elim (Bool-cases (row_le r s)) [
  | inl first ↦ rw first ((first, row_le-All r s rows first m.0), m)
  | inr later ↦ rw later (
    insert_row-All (λ x. row_le s x ≡ true) r rows (row_le_total r s later) m.0,
    insert_row-IsMerged r rows m.1,
  )
]

insert_row-Permᴰ : (r : Row) (rows : List Row) → Permᴰ (r ∷ rows) (insert_row r rows)
unfolding insert_row
insert_row-Permᴰ r [] = Permᴰ.refl (r ∷ [])
insert_row-Permᴰ r (s ∷ rows) = elim (Bool-cases (row_le r s)) [
  | inl first ↦ rw first (Permᴰ.refl (r ∷ s ∷ rows))
  | inr later ↦
      rw later (Permᴰ.trans (Permᴰ.swap refl refl) (Permᴰ.cons refl (insert_row-Permᴰ r rows)))
]

-- For all rows the merged list is a rearrangement of them in which every row is at most each later
-- one, by time, endpoint, worker and number.
pub merge_rows-IsMerged :
    (rows : List Row) → Permᴰ rows (merge_rows rows) × IsMerged (merge_rows rows)
unfolding merge_rows
merge_rows-IsMerged [] = (Permᴰ.nil, tt)
merge_rows-IsMerged (r ∷ rows) =
    let (same, merged) = merge_rows-IsMerged rows in
    (
      Permᴰ.trans (Permᴰ.cons refl same) (insert_row-Permᴰ r (merge_rows rows)),
      insert_row-IsMerged r (merge_rows rows) merged,
    )
