-- ===== src/Decoder/Associate.antt =====
-- The association loop of `decode` in benchmark/tail-localization/decode_v3.py, from the merged rows
-- to the complete requests, and the checks behind it. Maps from connections to numbers are
-- functions. The event counters and the order of the slow requests are not modelled.
pub mod Steps
pub mod Progress
pub mod Completion
pub mod Order
use hp_http_server.Common.{
  ℕ, suc, zero, ◌+◌, ◌-◌, ◌*◌, Bool, true, false, not, ◌&&◌, ◌||◌, Option, none, some, List, [],
  ◌∷◌, ◌++◌, ltb, leb, ◌==◌, if◌then◌else◌, any, all, length, Outcome, ok, err, ◌>>=◌, ◌>>◌, demand,
}
use hp_http_server.Decoder.Faults.{
  Fault, outside_frozen_filter, wrong_owner, late_event, origin_gap, origins_differ, quota_differs,
  sequence_target_differs, selection_incomplete,
}
use hp_http_server.Decoder.Threads.{Side, client, server, side_eq, Row}
use hp_http_server.Decoder.Group.{Group, new_group, add_row, is_complete}
use hp_http_server.Decoder.Finish.{
  Setup, Link, Request, Pending, Ending, idle, pending, complete, finish, last_sequence,
}

abbrev pub index_at : Side → Link → ℕ
index_at client l = l.client_index
index_at server l = l.server_index

abbrev pub worker_at : Side → Link → ℕ
worker_at client l = l.client_worker
worker_at server l = l.server_worker

-- `by_connection[(endpoint, index)]`, with the selected connection that it leads to.
unfoldable pub find_link : Side → ℕ → ℕ → List Link → Option (ℕ × Link)
find_link side index position [] = none
find_link side index position (l ∷ links) =
    if index == index_at side l
    then some (position, l)
    else find_link side index (suc position) links

-- A group that is under way, with its key and its connection.
pub record Active : Type 0 where
  pub connection_index : ℕ
  pub link : Link
  pub sequence : ℕ
  pub group : Group

abbrev pub is_key : ℕ → ℕ → Active → Bool
is_key c n a = c == a.connection_index && n == a.sequence

unfoldable pub group_of : ℕ → ℕ → List Active → Group
group_of c n [] = new_group
group_of c n (a ∷ active) = if is_key c n a then a.group else group_of c n active

-- `del active[key]`
unfoldable pub delete_group : ℕ → ℕ → List Active → List Active
delete_group c n [] = []
delete_group c n (a ∷ active) = if is_key c n a then active else a ∷ delete_group c n active

unfoldable pub put_group : Active → List Active → List Active
put_group new [] = new ∷ []
put_group new (a ∷ active) =
    if is_key new.connection_index new.sequence a then new ∷ active else a ∷ put_group new active

pub record Tally : Type 0 where
  pub idle_groups : ℕ
  pub boundaries : List Pending
  pub requests : List Request

unfoldable pub add_ending : Ending → Tally → Tally
add_ending idle t = record t { idle_groups = t.idle_groups + 1 }
add_ending (pending p) t = record t { boundaries = t.boundaries ++ p ∷ [] }
add_ending (complete r) t = record t { requests = t.requests ++ r ∷ [] }

pub record State : Type 0 where
  pub active : List Active
  pub finalized : ℕ → ℕ
  pub origins : ℕ → ℕ
  pub tally : Tally

abbrev pub start : State
start = record {
  active = [];
  finalized = λ _. 0;
  origins = λ _. 0;
  tally = record { idle_groups = 0; boundaries = []; requests = [] };
}

abbrev pub update : (ℕ → ℕ) → ℕ → ℕ → ℕ → ℕ
update f c n j = if j == c then n else f j

-- `if kind==1`: the sequences of a connection's origins are 1, 2, 3, …
unfoldable pub add_origin : ℕ → Row → State → Outcome Fault State
add_origin c r s =
    if r.kind == 1
    then (do
      demand (r.sequence == s.origins c + 1) origin_gap
      ok (record s { origins = update s.origins c r.sequence }))
    else ok s

module _ (setup : Setup) where
  unfoldable pub settle : ℕ → Link → Row → Group → State → Outcome Fault State
  settle c l r g s =
      if is_complete g
      then (do
        ending ← finish setup c l r.sequence g false
        ok (record s {
          active = delete_group c r.sequence s.active;
          finalized = update s.finalized c r.sequence;
          tally = add_ending ending s.tally;
        }))
      else ok (record s {
        active =
            put_group (record { connection_index = c; link = l; sequence = r.sequence; group = g })
              s.active;
      })

  unfoldable pub associate_at : ℕ → Link → Row → State → Outcome Fault State
  unfolding add_origin settle group_of
  associate_at c l r s = do
    demand (r.worker == worker_at r.endpoint l) wrong_owner
    if r.kind == 23 then ok s else (do
      demand (ltb (s.finalized c) r.sequence) late_event
      s' ← add_origin c r s
      g ← add_row (group_of c r.sequence s'.active) r
      settle c l r g s')

  unfoldable pub associate_found : Option (ℕ × Link) → Row → State → Outcome Fault State
  unfolding associate_at
  associate_found none r s = err outside_frozen_filter
  associate_found (some (c, l)) r s = associate_at c l r s

  unfoldable pub associate : List Link → State → Row → Outcome Fault State
  unfolding associate_found find_link
  associate links s r = associate_found (find_link r.endpoint r.index 0 links) r s

  unfoldable pub associate_all : List Link → State → List Row → Outcome Fault State
  unfolding associate
  associate_all links s [] = ok s
  associate_all links s (r ∷ rows) = do s' ← associate links s r; associate_all links s' rows

  -- `for key,group in sorted(active.items()):finish(key,group,True)`
  unfoldable pub finish_active : List Active → Tally → Outcome Fault Tally
  finish_active [] t = ok t
  finish_active (a ∷ active) t = do
    ending ← finish setup a.connection_index a.link a.sequence a.group true
    finish_active active (add_ending ending t)

  unfoldable pub check_origins : (ℕ → ℕ) → ℕ → List Link → Outcome Fault (Unit {0})
  check_origins origins position [] = ok tt
  check_origins origins position (l ∷ links) = do
    demand (origins position == last_sequence l.reserved) origins_differ
    check_origins origins (suc position) links

  unfoldable pub is_target : (ℕ → ℕ) → ℕ → List Link → Bool
  is_target origins position [] = true
  is_target origins position (l ∷ links) =
      origins position == setup.requests_per_connection && is_target origins (suc position) links

  abbrev no_boundary : List Pending → Bool
  no_boundary [] = true
  no_boundary (_ ∷ _) = false

  unfoldable pub check_quota : ℕ → List Link → (ℕ → ℕ) → Tally → Outcome Fault (Unit {0})
  unfolding is_target
  check_quota connections links origins t =
      if setup.requests_per_connection == 0 then ok tt else (do
        demand
            (no_boundary t.boundaries
              && length t.requests == length links * setup.requests_per_connection)
            quota_differs
        demand (is_target origins 0 links) sequence_target_differs
        demand (length links == connections) selection_incomplete)

  -- `insert_active` and `sort_active` are `sorted` by the keys.
  unfoldable pub insert_active : Active → List Active → List Active
  insert_active a [] = a ∷ []
  insert_active a (b ∷ active) =
      if ltb a.connection_index b.connection_index
        || (a.connection_index == b.connection_index && leb a.sequence b.sequence)
      then a ∷ b ∷ active
      else b ∷ insert_active a active

  unfoldable pub sort_active : List Active → List Active
  unfolding insert_active
  sort_active [] = []
  sort_active (a ∷ active) = insert_active a (sort_active active)

  -- The loop, the groups that are left, and the final checks.
  unfoldable pub decode_rows : ℕ → List Link → List Row → Outcome Fault Tally
  unfolding associate_all finish_active sort_active check_origins check_quota
  decode_rows connections links rows = do
    s ← associate_all links start rows
    t ← finish_active (sort_active s.active) s.tally
    check_origins s.origins 0 links
    check_quota connections links s.origins t
    ok t
