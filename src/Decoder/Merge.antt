-- ===== src/Decoder/Merge.antt =====
-- `heapq.merge` of the threads' rows in benchmark/tail-localization/decode_v3.py. The library
-- merges sorted inputs as `sorted` would order their concatenation, by the order on tuples. Two
-- rows differ in their endpoint, worker or ordinal, so later fields do not count.
pub mod Sorted
use hp_http_server.Common.{Bool, ◌&&◌, ◌||◌, List, [], ◌∷◌, ltb, leb, ◌==◌, if◌then◌else◌}
use hp_http_server.Decoder.Threads.{side_code, Row}

abbrev pub row_le : Row → Row → Bool
row_le a b =
    ltb a.timestamp b.timestamp
    || (a.timestamp == b.timestamp
        && (ltb (side_code a.endpoint) (side_code b.endpoint)
            || (side_code a.endpoint == side_code b.endpoint
                && (ltb a.worker b.worker || (a.worker == b.worker && leb a.ordinal b.ordinal)))))

unfoldable pub insert_row : Row → List Row → List Row
insert_row r [] = r ∷ []
insert_row r (s ∷ rows) = if row_le r s then r ∷ s ∷ rows else s ∷ insert_row r rows

unfoldable pub merge_rows : List Row → List Row
unfolding insert_row
merge_rows [] = []
merge_rows (r ∷ rows) = insert_row r (merge_rows rows)
