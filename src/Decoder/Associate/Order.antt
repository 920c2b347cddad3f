-- ===== src/Decoder/Associate/Order.antt =====
-- The order of the completed requests over a whole run of `decode`: an invariant of the loop.
use hp_http_server.Common.{
  ℕ, ◌+◌, ◌≤◌, ◌<◌, ◌≡◌, refl, ◌∙◌, sym, ap, subst, true, false, ◌&&◌, ◌||◌, List, [], ◌∷◌, ◌++◌,
  arith, ltb, leb, ◌==◌, Bool-cases, inl, inr, All, All-append, All-mono, ok, demand, >>=-eq-ok,
  ok-injective, ==_iff,
}
use hp_http_server.Decoder.Faults.{origin_gap}
use hp_http_server.Decoder.Threads.{Row}
use hp_http_server.Decoder.Group.{Group, is_complete}
use hp_http_server.Decoder.Finish.{Setup, Link, Request, Ending, idle, pending, complete, finish}
use hp_http_server.Decoder.Associate.{
  Active, is_key, State, start, Tally, update, put_group, delete_group, add_ending, add_origin,
  associate, associate_all, finish_active, insert_active, sort_active, check_origins, check_quota,
  decode_rows,
}
use hp_http_server.Decoder.Associate.Steps.{
  Settles, finished, kept, Associates, skipped, added, associate-found,
}
use hp_http_server.Decoder.Associate.Completion.{Completes, finish-Completes}

-- Later in the list means later on the connection.
abbrev pub Precedes : Request → Request → Type 0
Precedes r q = r.connection_index ≡ q.connection_index → r.request_sequence < q.request_sequence

abbrev pub Ordered : List Request → Type 0
Ordered [] = Unit {0}
Ordered (r ∷ rs) = All (Precedes r) rs × Ordered rs

Ordered-append :
    (rs : List Request) (q : Request)
    → All (λ r. Precedes r q) rs
    → Ordered rs
    → Ordered (rs ++ q ∷ [])
Ordered-append [] q h o = (tt, tt)
Ordered-append (r ∷ rs) q h o = (All-append (Precedes r) rs q o.0 h.0, Ordered-append rs q h.1 o.1)

-- A request is not beyond the last finalized sequence of its connection.
abbrev Below : (ℕ → ℕ) → Request → Type 0
Below finalized r = r.request_sequence ≤ finalized r.connection_index

abbrev IsOpen : Active → Type 0
IsOpen a = is_complete a.group ≡ false

put_group-All :
    (P : Active → Type 0) (new : Active) (active : List Active)
    → P new
    → All P active
    → All P (put_group new active)
unfolding put_group
put_group-All P new [] p h = (p, tt)
put_group-All P new (a ∷ active) p h =
    elim (Bool-cases (is_key new.connection_index new.sequence a)) [
      | inl same ↦ rw same (p, h.1)
      | inr differs ↦ rw differs (h.0, put_group-All P new active p h.1)
    ]

delete_group-All :
    (P : Active → Type 0) (c n : ℕ) (active : List Active)
    → All P active
    → All P (delete_group c n active)
unfolding delete_group
delete_group-All P c n [] h = tt
delete_group-All P c n (a ∷ active) h = elim (Bool-cases (is_key c n a)) [
  | inl same ↦ rw same h.1
  | inr differs ↦ rw differs (h.0, delete_group-All P c n active h.1)
]

-- The invariant of the loop.
record Sound (s : State) : Type 0 where
  below : All (Below s.finalized) s.tally.requests
  ordered : Ordered s.tally.requests
  incomplete : All IsOpen s.active

Below-update : (f : ℕ → ℕ) (c n : ℕ) (r : Request) → f c < n → Below f r → Below (update f c n) r
Below-update f c n r late h = elim (Bool-cases (r.connection_index == c)) [
  | inl same ↦
      let here : f r.connection_index ≡ f c = ap f ((==_iff r.connection_index c).0 same) in
      rw same (omega (arith, here, h, late))
  | inr differs ↦ rw differs h
]

Below-latest :
    (f : ℕ → ℕ) (c n : ℕ) (r : Request)
    → r.connection_index ≡ c
    → r.request_sequence ≡ n
    → Below (update f c n) r
Below-latest f c n r here this = rw (here, (==_iff c c).1 refl) (omega arith)

-- A group that ends after the last finalized sequence keeps the order.
add_ending-Ordered :
    (f : ℕ → ℕ) (c n : ℕ) (g : Group) (e : Ending) (t : Tally)
    → f c < n
    → Completes c n g e
    → All (Below f) t.requests
    → Ordered t.requests
    → All (Below (update f c n)) (add_ending e t).requests × Ordered (add_ending e t).requests
unfolding add_ending
add_ending-Ordered f c n g idle t late h b o =
    (All-mono (Below f) (Below (update f c n)) t.requests (λ r. Below-update f c n r late) b, o)
add_ending-Ordered f c n g (pending p) t late h b o =
    (All-mono (Below f) (Below (update f c n)) t.requests (λ r. Below-update f c n r late) b, o)
add_ending-Ordered f c n g (complete q) t late h b o = (
  All-append (Below (update f c n)) t.requests q
      (All-mono (Below f) (Below (update f c n)) t.requests (λ r. Below-update f c n r late) b)
      (Below-latest f c n q h.0 h.1),
  Ordered-append t.requests q (All-mono (Below f) (λ r. Precedes r q) t.requests precedes b) o,
)
  where
    precedes : (r : Request) → Below f r → Precedes r q
    precedes r below same =
        let here : f r.connection_index ≡ f c = ap f (same ∙ h.0) in
        omega (arith, here, below, late, h.1)

Settles-Sound :
    (setup : Setup) (c : ℕ) (l : Link) (r : Row) (g : Group) (s t : State)
    → s.finalized c < r.sequence
    → Settles setup c l r g s t
    → Sound s
    → Sound t
Settles-Sound setup c l r g s t late (finished ending done e f) i =
    let (b, o) =
      add_ending-Ordered s.finalized c r.sequence g ending s.tally late
        (finish-Completes setup c l r.sequence g false ending e) i.below i.ordered in
    subst Sound (sym f) (record {
      below = b;
      ordered = o;
      incomplete = delete_group-All IsOpen c r.sequence s.active i.incomplete;
    })
Settles-Sound setup c l r g s t late (kept open_yet f) i = subst Sound (sym f) (record {
  below = i.below;
  ordered = i.ordered;
  incomplete =
      put_group-All IsOpen
        (record { connection_index = c; link = l; sequence = r.sequence; group = g }) s.active
        open_yet i.incomplete;
})

-- An origin only changes the counter of origins.
add_origin-kept :
    (c : ℕ) (r : Row) (s t : State)
    → add_origin c r s ≡ ok t
    → (t.finalized ≡ s.finalized) × (Sound s → Sound t)
unfolding add_origin
add_origin-kept c r s t h = elim (Bool-cases (r.kind == 1)) [
  | inl origin ↦
      let (_, _, f) =
        >>=-eq-ok (demand (r.sequence == s.origins c + 1) origin_gap) _
          (rw (origin, add_origin) at h) in
      kept_by (ok-injective f)
  | inr other_row ↦
      let f = ok-injective (rw (other_row, add_origin) at h) in
      (ap (λ (x : State). x.finalized) (sym f), subst Sound f)
]
  where
    kept_by :
        record s { origins = update s.origins c r.sequence } ≡ t
        → (t.finalized ≡ s.finalized) × (Sound s → Sound t)
    kept_by f = (
      ap (λ (x : State). x.finalized) (sym f),
      λ i.
          subst Sound f
            (record { below = i.below; ordered = i.ordered; incomplete = i.incomplete }),
    )

Associates-Sound :
    (setup : Setup) (c : ℕ) (l : Link) (r : Row) (s t : State)
    → Associates setup c l r s t
    → Sound s
    → Sound t
Associates-Sound setup c l r s t (skipped life e) i = subst Sound (sym e) i
Associates-Sound setup c l r s t (added s' g event late o a settled) i =
    let (same, moved) = add_origin-kept c r s s' o in
    Settles-Sound setup c l r g s' t (subst (λ (f : ℕ → ℕ). f c < r.sequence) (sym same) late)
      settled (moved i)

associate_all-Sound :
    (setup : Setup) (links : List Link) (rows : List Row) (s t : State)
    → associate_all setup links s rows ≡ ok t
    → Sound s
    → Sound t
unfolding associate_all
associate_all-Sound setup links [] s t h i = subst Sound (ok-injective h) i
associate_all-Sound setup links (r ∷ rows) s t h i =
    let (s', e, h') = >>=-eq-ok (associate setup links s r) _ h in
    let (c, l, found, step) = associate-found setup links r s s' e in
    associate_all-Sound setup links rows s' t h' (Associates-Sound setup c l r s s' step i)

insert_active-All :
    (setup : Setup) (P : Active → Type 0) (a : Active) (active : List Active)
    → P a
    → All P active
    → All P (insert_active setup a active)
unfolding insert_active
insert_active-All setup P a [] p h = (p, tt)
insert_active-All setup P a (b ∷ active) p h =
    elim (Bool-cases (
      ltb a.connection_index b.connection_index
      || (a.connection_index == b.connection_index && leb a.sequence b.sequence))) [
        | inl first ↦ rw first (p, h)
        | inr later ↦ rw later (h.0, insert_active-All setup P a active p h.1)
      ]

sort_active-All :
    (setup : Setup) (P : Active → Type 0) (active : List Active)
    → All P active
    → All P (sort_active setup active)
unfolding sort_active
sort_active-All setup P [] h = tt
sort_active-All setup P (a ∷ active) h =
    insert_active-All setup P a (sort_active setup active) h.0 (sort_active-All setup P active h.1)

-- A group that was still open at the stop adds no request.
add_ending-requests :
    (c n : ℕ) (g : Group) (e : Ending) (t : Tally)
    → is_complete g ≡ false
    → Completes c n g e
    → (add_ending e t).requests ≡ t.requests
unfolding add_ending
add_ending-requests c n g idle t h k = refl
add_ending-requests c n g (pending p) t h k = refl
add_ending-requests c n g (complete r) t h k = cc (sym h ∙ k.2)

finish_active-requests :
    (setup : Setup) (active : List Active) (t u : Tally)
    → All IsOpen active
    → finish_active setup active t ≡ ok u
    → u.requests ≡ t.requests
unfolding finish_active
finish_active-requests setup [] t u o h = ap (λ (x : Tally). x.requests) (sym (ok-injective h))
finish_active-requests setup (a ∷ active) t u o h =
    let (e, f, h') =
      >>=-eq-ok (finish setup a.connection_index a.link a.sequence a.group true) _ h in
    finish_active-requests setup active (add_ending e t) u o.1 h'
    ∙ add_ending-requests a.connection_index a.sequence a.group e t o.0
        (finish-Completes setup a.connection_index a.link a.sequence a.group true e f)

-- If the rows of a capture are decoded, then of two completed requests of one connection the one
-- that is listed first has the smaller sequence: no request is completed twice, and each
-- connection's requests are completed in the order of their sequences.
pub decode_rows-Ordered :
    (setup : Setup) (connections : ℕ) (links : List Link) (rows : List Row) (t : Tally)
    → decode_rows setup connections links rows ≡ ok t
    → Ordered t.requests
unfolding decode_rows
decode_rows-Ordered setup connections links rows t h =
    let (s, run, h1) = >>=-eq-ok (associate_all setup links start rows) _ h in
    let (u, rest, h2) = >>=-eq-ok (finish_active setup (sort_active setup s.active) s.tally) _ h1 in
    let (_, _, h3) = >>=-eq-ok (check_origins setup s.origins 0 links) _ h2 in
    let (_, _, e) = >>=-eq-ok (check_quota setup connections links s.origins u) _ h3 in
    let sound =
      associate_all-Sound setup links rows start s run
        (record { below = tt; ordered = tt; incomplete = tt }) in
    let none_added : u.requests ≡ s.tally.requests =
      finish_active-requests setup (sort_active setup s.active) s.tally u
        (sort_active-All setup IsOpen s.active sound.incomplete) rest in
    subst Ordered (sym none_added ∙ ap (λ (x : Tally). x.requests) (ok-injective e)) sound.ordered
