-- ===== src/Decoder/Associate/Steps.antt =====
-- The ways in which one round of the association loop can succeed.
use hp_http_server.Common.{
  ℕ, ◌<◌, ◌≡◌, ◌≢◌, ◌∙◌, sym, true, false, some, List, ltb, ◌==◌, ltb→lt, ==_iff, Bool-cases,
  Option-cases, inl, inr, ok, demand, >>=-eq-ok, demand-eq-ok, ok-injective,
}
use hp_http_server.Decoder.Faults.{wrong_owner, late_event}
use hp_http_server.Decoder.Threads.{Row}
use hp_http_server.Decoder.Group.{Group, add_row, is_complete}
use hp_http_server.Decoder.Finish.{Setup, Link, Ending, finish}
use hp_http_server.Decoder.Associate.{
  State, update, worker_at, find_link, group_of, put_group, delete_group, add_ending, add_origin,
  settle, associate_at, associate_found, associate,
}

-- `settle`: the group is finished and forgotten, or it is kept.
pub data Settles (setup : Setup) (c : ℕ) (l : Link) (r : Row) (g : Group) (s t : State)
    : Type 0 where
  finished :
      (ending : Ending)
      → is_complete g ≡ true
      → finish setup c l r.sequence g false ≡ ok ending
      → t ≡ record s {
        active = delete_group c r.sequence s.active;
        finalized = update s.finalized c r.sequence;
        tally = add_ending ending s.tally;
      }
      → Settles setup c l r g s t
  kept :
      is_complete g ≡ false
      → t ≡ record s {
        active =
            put_group
              (record { connection_index = c; link = l; sequence = r.sequence; group = g })
              s.active;
      }
      → Settles setup c l r g s t

pub settle-Settles :
    (setup : Setup) (c : ℕ) (l : Link) (r : Row) (g : Group) (s t : State)
    → settle setup c l r g s ≡ ok t
    → Settles setup c l r g s t
unfolding settle
settle-Settles setup c l r g s t h = elim (Bool-cases (is_complete g)) [
  | inl done ↦
      let (ending, e, f) =
        >>=-eq-ok (finish setup c l r.sequence g false) _ (rw (done, settle) at h) in
      finished ending done e (sym (ok-injective f))
  | inr open_yet ↦ kept open_yet (sym (ok-injective (rw (open_yet, settle) at h)))
]

-- A round either skips a lifecycle row or adds the row to its group.
pub data Associates (setup : Setup) (c : ℕ) (l : Link) (r : Row) (s t : State) : Type 0 where
  skipped : r.kind ≡ 23 → t ≡ s → Associates setup c l r s t
  added :
      (s' : State) (g : Group)
      → r.kind ≢ 23
      → s.finalized c < r.sequence
      → add_origin c r s ≡ ok s'
      → add_row (group_of c r.sequence s'.active) r ≡ ok g
      → Settles setup c l r g s' t
      → Associates setup c l r s t

pub associate_at-Associates :
    (setup : Setup) (c : ℕ) (l : Link) (r : Row) (s t : State)
    → associate_at setup c l r s ≡ ok t
    → Associates setup c l r s t
unfolding associate_at
associate_at-Associates setup c l r s t h =
    let (_, _, h1) = >>=-eq-ok (demand (r.worker == worker_at r.endpoint l) wrong_owner) _ h in
    elim (Bool-cases (r.kind == 23)) [
      | inl life ↦ skipped ((==_iff r.kind 23).0 life) (sym (ok-injective (rw life at h1)))
      | inr event ↦
          let (_, late, h2) =
            >>=-eq-ok (demand (ltb (s.finalized c) r.sequence) late_event) _ (rw event at h1) in
          let (s', o, h3) = >>=-eq-ok (add_origin c r s) _ h2 in
          let (g, a, h4) = >>=-eq-ok (add_row (group_of c r.sequence s'.active) r) _ h3 in
          added s' g (λ e. cc (sym event ∙ (==_iff r.kind 23).1 e))
            (ltb→lt (s.finalized c) r.sequence (demand-eq-ok _ _ late)) o a
            (settle-Settles setup c l r g s' t h4)
    ]

-- A row is associated only through a selected connection.
pub associate-found :
    (setup : Setup) (links : List Link) (r : Row) (s t : State)
    → associate setup links s r ≡ ok t
    → (c : ℕ) × (l : Link) × (find_link r.endpoint r.index 0 links ≡ some (c, l))
      × Associates setup c l r s t
unfolding associate associate_found
associate-found setup links r s t h = elim (Option-cases (find_link r.endpoint r.index 0 links)) [
  | inl lost ↦ cc (rw lost at h)
  | inr ((c, l), found) ↦ (c, l, found, associate_at-Associates setup c l r s t (rw found at h))
]
