-- ===== src/Decoder/Group.antt =====
-- The group of one request in `decode` of benchmark/tail-localization/decode_v3.py: what one row
-- of the request does to `points`, `handlers`, `positive_reads`, `open_calls`, `intervals` and the
-- byte counts.
use hp_http_server.Common.{
  ℕ, ◌+◌, Bool, true, false, not, ◌&&◌, ◌||◌, Option, none, some, List, [], ◌∷◌, ◌++◌, ltb, leb,
  ◌==◌, if◌then◌else◌, any, all, Outcome, ok, err, ◌>>=◌, ◌>>◌, demand,
}
use hp_http_server.Common.Int.{ℤ}
use hp_http_server.Decoder.Faults.{
  Fault, duplicate_point, nested_start, orphan_return, returned_too_much,
}
use hp_http_server.Decoder.Wire.{is_in}
use hp_http_server.Decoder.Threads.{Side, side_eq, Row}

-- `(endpoint, str(begin), start, end)`
pub record Scope : Type 0 where
  pub endpoint : Side
  pub begin : ℕ
  pub start : ℕ
  pub end : ℕ

-- An entry of `open_calls`: the time and the value of each start, newest first.
pub record OpenCall : Type 0 where
  pub endpoint : Side
  pub begin : ℕ
  pub stack : List (ℕ × ℕ)

-- `points` holds the kind and the time of each point; `body` the value, the result and the flags.
pub record Group : Type 0 where
  pub points : List (ℕ × ℕ)
  pub handlers : List ℕ
  pub positive_reads : List ℕ
  pub open_calls : List OpenCall
  pub intervals : List Scope
  pub sent_bytes : ℕ
  pub enqueue_bytes : Option ℕ
  pub body : Option (ℕ × ℤ × ℕ)

abbrev pub new_group : Group
new_group = record {
  points = [];
  handlers = [];
  positive_reads = [];
  open_calls = [];
  intervals = [];
  sent_bytes = 0;
  enqueue_bytes = none;
  body = none;
}

unfoldable pub point_at : ℕ → List (ℕ × ℕ) → Option ℕ
point_at k [] = none
point_at k ((j, time) ∷ points) = if k == j then some time else point_at k points

abbrev pub has_point : List (ℕ × ℕ) → ℕ → Bool
has_point points k = any (λ (p : ℕ × ℕ). k == p.0) points

abbrev pub point_kinds : List ℕ
point_kinds = 1 ∷ 2 ∷ 3 ∷ 4 ∷ 8 ∷ 9 ∷ 10 ∷ 15 ∷ []

-- The keys and the values of `PAIRS`.
abbrev pub start_kinds : List ℕ
start_kinds = 5 ∷ 6 ∷ 11 ∷ 13 ∷ 17 ∷ 19 ∷ 21 ∷ []

unfoldable pub begin_of : ℕ → Option ℕ
begin_of kind =
    if kind == 16
    then some 5
    else if kind == 7
    then some 6
    else if kind == 12
    then some 11
    else if kind == 14
    then some 13
    else if kind == 18
    then some 17
    else if kind == 20
    then some 19
    else if kind == 22
    then some 21
    else none

abbrev pub is_call : Side → ℕ → OpenCall → Bool
is_call side begin c = side_eq side c.endpoint && begin == c.begin

-- `open_calls.get((endpoint, begin))`, an absent entry as an empty stack.
unfoldable pub stack_of : Side → ℕ → List OpenCall → List (ℕ × ℕ)
stack_of side begin [] = []
stack_of side begin (c ∷ calls) =
    if is_call side begin c then c.stack else stack_of side begin calls

-- `open_calls[(endpoint, begin)] = stack`
unfoldable pub put_stack : Side → ℕ → List (ℕ × ℕ) → List OpenCall → List OpenCall
put_stack side begin stack [] = record { endpoint = side; begin = begin; stack = stack } ∷ []
put_stack side begin stack (c ∷ calls) =
    if is_call side begin c
    then record c { stack = stack } ∷ calls
    else c ∷ put_stack side begin stack calls

-- `del open_calls[(endpoint, begin)]`
unfoldable pub delete_call : Side → ℕ → List OpenCall → List OpenCall
delete_call side begin [] = []
delete_call side begin (c ∷ calls) =
    if is_call side begin c then calls else c ∷ delete_call side begin calls

unfoldable pub add_point : Group → Row → Outcome Fault Group
add_point g r =
    if is_in r.kind point_kinds
    then (do
      demand (not (has_point g.points r.kind)) duplicate_point
      ok (record g {
        points = g.points ++ (r.kind, r.timestamp) ∷ [];
        body = if r.kind == 4 then some (r.value, r.result, r.flags) else g.body;
        enqueue_bytes = if r.kind == 10 then some r.value else g.enqueue_bytes;
      }))
    else ok g

unfoldable pub add_counts : Group → Row → Group
add_counts g r = record g {
  handlers = if r.kind == 16 then g.handlers ++ r.timestamp ∷ [] else g.handlers;
  positive_reads =
      if r.kind == 7 && ltb 0 r.value && r.flags == 0
      then g.positive_reads ++ r.timestamp ∷ []
      else g.positive_reads;
  sent_bytes =
      if is_in r.kind (12 ∷ 14 ∷ []) && r.flags == 0 then g.sent_bytes + r.value else g.sent_bytes;
}

abbrev is_empty {ℓ} : {A : Type ℓ} → List A → Bool
is_empty [] = true
is_empty (_ ∷ _) = false

unfoldable pub start_call : Group → Row → Outcome Fault Group
unfolding stack_of put_stack
start_call g r = do
  let stack = stack_of r.endpoint r.kind g.open_calls
  demand (is_in r.kind (5 ∷ 17 ∷ []) || is_empty stack) nested_start
  ok (record g {
    open_calls = put_stack r.endpoint r.kind ((r.timestamp, r.value) ∷ stack) g.open_calls;
  })

-- The return of a call whose stack is given: the newest start is taken off it.
unfoldable pub end_call : Group → Row → ℕ → List (ℕ × ℕ) → Outcome Fault Group
unfolding put_stack delete_call
end_call g r begin [] = err orphan_return
end_call g r begin ((start, requested) ∷ stack) = do
  demand (not (is_in begin (6 ∷ 11 ∷ 13 ∷ 19 ∷ 21 ∷ [])) || leb r.value requested) returned_too_much
  ok (record g {
    intervals =
        g.intervals
        ++ record { endpoint = r.endpoint; begin = begin; start = start; end = r.timestamp } ∷ [];
    open_calls = elim stack [
      | [] ↦ delete_call r.endpoint begin g.open_calls
      | s ∷ older ↦ put_stack r.endpoint begin (s ∷ older) g.open_calls
    ];
  })

unfoldable pub match_call : Group → Row → Outcome Fault Group
unfolding start_call end_call begin_of stack_of
match_call g r = if is_in r.kind start_kinds then start_call g r else elim (begin_of r.kind) [
  | some begin ↦ end_call g r begin (stack_of r.endpoint begin g.open_calls)
  | none ↦ ok g
]

unfoldable pub add_row : Group → Row → Outcome Fault Group
unfolding add_point add_counts match_call
add_row g r = do g' ← add_point g r; match_call (add_counts g' r) r

-- `complete`
unfoldable pub is_complete : Group → Bool
unfolding point_at
is_complete g =
    all (has_point g.points) point_kinds
    && not (is_empty g.positive_reads)
    && elim (point_at 15 g.points) [
      | some drained ↦ any (λ t. leb drained t) g.handlers
      | none ↦ false
    ]
