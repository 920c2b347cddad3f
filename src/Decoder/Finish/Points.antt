-- ===== src/Decoder/Finish/Points.antt =====
-- What `finish` of benchmark/tail-localization/decode_v3.py looks up in a group: the times of its
-- points, the handler's return, and what is missing.
use hp_http_server.Common.{ℕ, Option, none, some, List, [], ◌∷◌, ◌++◌, leb, if◌then◌else◌}
use hp_http_server.Decoder.Group.{Group, point_at, has_point, point_kinds}

-- `points[kind]`, for a kind that is known to be there.
unfoldable pub at : ℕ → Group → ℕ
unfolding point_at
at k g = elim (point_at k g.points) [ some time ↦ time | none ↦ 0 ]

-- `next((t for t in handlers if 15 in points and t >= points[15]), None)`
unfoldable pub first_from : ℕ → List ℕ → Option ℕ
first_from low [] = none
first_from low (t ∷ handlers) = if leb low t then some t else first_from low handlers

unfoldable pub handler_of : Group → Option ℕ
unfolding point_at first_from
handler_of g = elim (point_at 15 g.points) [
  | some drained ↦ first_from drained g.handlers
  | none ↦ none
]

unfoldable pub missing_points : List (ℕ × ℕ) → List ℕ → List ℕ
missing_points points [] = []
missing_points points (k ∷ kinds) =
    let rest = missing_points points kinds in if has_point points k then rest else k ∷ rest

unfoldable pub missing_of : Group → List ℕ
unfolding missing_points handler_of
missing_of g =
    missing_points g.points point_kinds
    ++ elim g.positive_reads [ [] ↦ 7 ∷ [] | t ∷ reads ↦ [] ]
    ++ elim (handler_of g) [ none ↦ 16 ∷ [] | some t ↦ [] ]
