-- ===== src/Decoder/Associate/Progress.antt =====
-- The request origins of each connection, over a whole run of the association loop.
use hp_http_server.Common.{
  ℕ, suc, zero, ◌+◌, ◌≡◌, refl, ◌∙◌, sym, ap, subst, Bool, true, false, ◌&&◌, Option, none, some,
  List, [], ◌∷◌, arith, ◌==◌, if◌then◌else◌, Bool-cases, inl, inr, length, ok, demand, >>=-eq-ok,
  demand-eq-ok, ok-injective, get_elem?, ==_iff, some-injective,
}
use hp_http_server.Decoder.Faults.{origin_gap, origins_differ}
use hp_http_server.Decoder.Threads.{Row}
use hp_http_server.Decoder.Group.{Group}
use hp_http_server.Decoder.Finish.{Setup, Link, last_sequence}
use hp_http_server.Decoder.Associate.Steps.{
  Settles, finished, kept, Associates, skipped, added, associate-found,
}
use hp_http_server.Decoder.Associate.{
  State, start, Tally, update, find_link, add_origin, associate, associate_all, finish_active,
  sort_active, check_origins, decode_rows,
}

abbrev starts_at : ℕ → Option (ℕ × Link) → Bool
starts_at c none = false
starts_at c (some (position, l)) = c == position

-- Whether the row is the client's first write of a request of the connection.
abbrev pub is_origin : List Link → ℕ → Row → Bool
is_origin links c r = r.kind == 1 && starts_at c (find_link r.endpoint r.index 0 links)

-- The sequences of these rows, in their order.
pub origins_of : List Link → ℕ → List Row → List ℕ
origins_of links c [] = []
origins_of links c (r ∷ rows) =
    let rest = origins_of links c rows in if is_origin links c r then r.sequence ∷ rest else rest

-- The `k` numbers that follow `n`.
abbrev pub counting : ℕ → ℕ → List ℕ
counting n zero = []
counting n (suc k) = suc n ∷ counting (suc n) k

Settles-origins :
    (setup : Setup) (c : ℕ) (l : Link) (r : Row) (g : Group) (s t : State)
    → Settles setup c l r g s t
    → t.origins ≡ s.origins
Settles-origins setup c l r g s t (finished ending done e f) = ap (λ (x : State). x.origins) f
Settles-origins setup c l r g s t (kept open_yet f) = ap (λ (x : State). x.origins) f

-- What a row with the sequence `n` does to the counter of a connection, if it is an origin or not.
abbrev Counts : Bool → ℕ → ℕ → ℕ → Type 0
Counts true n before after = (after ≡ before + 1) × (n ≡ before + 1)
Counts false n before after = after ≡ before

add_origin-Counts :
    (c d : ℕ) (r : Row) (s t : State)
    → add_origin c r s ≡ ok t
    → Counts (r.kind == 1 && d == c) r.sequence (s.origins d) (t.origins d)
unfolding add_origin
add_origin-Counts c d r s t h = elim (Bool-cases (r.kind == 1)) [
  | inl origin ↦
      let (_, next, f) =
        >>=-eq-ok (demand (r.sequence == s.origins c + 1) origin_gap) _
          (rw (origin, add_origin) at h) in
      let moved = ap (λ (x : State). x.origins d) (sym (ok-injective f)) in
      rw origin (counts moved (demand-eq-ok _ _ next))
  | inr other_row ↦
      rw other_row
        (ap (λ (x : State). x.origins d) (sym (ok-injective (rw (other_row, add_origin) at h))))
]
  where
    counts :
        t.origins d ≡ update s.origins c r.sequence d
        → (r.sequence == s.origins c + 1) ≡ true
        → Counts (d == c) r.sequence (s.origins d) (t.origins d)
    counts moved next = elim (Bool-cases (d == c)) [
      | inl here ↦ rw here (ground (arith, moved), ground (arith, moved))
      | inr there ↦ rw there (ground (arith, moved))
    ]

Associates-Counts :
    (setup : Setup) (c d : ℕ) (l : Link) (r : Row) (s t : State)
    → Associates setup c l r s t
    → Counts (r.kind == 1 && d == c) r.sequence (s.origins d) (t.origins d)
Associates-Counts setup c d l r s t (skipped life e) =
    rw (lifecycle r.kind life) (ap (λ (x : State). x.origins d) e)
  where
    lifecycle : (kind : ℕ) → kind ≡ 23 → (kind == 1) ≡ false
    lifecycle kind e = ground arith
Associates-Counts setup c d l r s t (added s' g event late o a settled) =
    subst (λ (n : ℕ). Counts (r.kind == 1 && d == c) r.sequence (s.origins d) n)
      (sym (ap (λ (f : ℕ → ℕ). f d) (Settles-origins setup c l r g s' t settled)))
      (add_origin-Counts c d r s s' o)

-- The numbers go on from `before`, and `after` is the last one.
abbrev Continues : ℕ → ℕ → List ℕ → Type 0
Continues before after ns = (ns ≡ counting before (length ns)) × (after ≡ before + length ns)

Continues-cons :
    (origin : Bool) (n before between after : ℕ) (ns : List ℕ)
    → Counts origin n before between
    → Continues between after ns
    → Continues before after (if origin then n ∷ ns else ns)
Continues-cons true n before between after ns c h =
    let e : between ≡ suc before = omega arith in
    let e' : n ≡ suc before = omega arith in (cc, omega arith)
Continues-cons false n before between after ns c h = subst (λ (m : ℕ). Continues m after ns) c h

associate_all-origins :
    (setup : Setup) (links : List Link) (d : ℕ) (rows : List Row) (s t : State)
    → associate_all setup links s rows ≡ ok t
    → Continues (s.origins d) (t.origins d) (origins_of links d rows)
unfolding associate_all origins_of
associate_all-origins setup links d [] s t h =
    (refl, rw (ap (λ (x : State). x.origins d) (sym (ok-injective h))) (omega arith))
associate_all-origins setup links d (r ∷ rows) s t h =
    let (s', e, h') = >>=-eq-ok (associate setup links s r) _ h in
    let (c, l, found, step) = associate-found setup links r s s' e in
    rw found (
      Continues-cons (r.kind == 1 && d == c) r.sequence (s.origins d) (s'.origins d) (t.origins d)
        (origins_of links d rows) (Associates-Counts setup c d l r s s' step)
        (associate_all-origins setup links d rows s' t h'))

check_origins-get_elem? :
    (setup : Setup) (origins : ℕ → ℕ) (links : List Link) (base position c : ℕ) (l : Link)
    {u : Unit {0}}
    → check_origins setup origins base links ≡ ok u
    → get_elem? links position ≡ some l
    → c ≡ base + position
    → origins c ≡ last_sequence l.reserved
unfolding check_origins
check_origins-get_elem? setup origins [] base position c l h e same = cc
check_origins-get_elem? setup origins (k ∷ links) base zero c l h e same =
    let (_, held, _) =
      >>=-eq-ok (demand (origins base == last_sequence k.reserved) origins_differ) _ h in
    let at_base : c ≡ base = omega arith in
    ap origins at_base
    ∙ (==_iff (origins base) (last_sequence k.reserved)).0 (demand-eq-ok _ _ held)
    ∙ ap (λ (x : Link). last_sequence x.reserved) (some-injective k l e)
check_origins-get_elem? setup origins (k ∷ links) base (suc position) c l h e same =
    let (_, _, h') =
      >>=-eq-ok (demand (origins base == last_sequence k.reserved) origins_differ) _ h in
    check_origins-get_elem? setup origins links (suc base) position c l h' e (omega arith)

-- If the rows of a capture are decoded, then for each selected connection the client's first writes
-- of a request carry the sequences 1, 2, 3, …, in this order and each once, and their number is the
-- count of requests in the client's own record of how the connection ended.
pub decode_rows-origins :
    (setup : Setup) (connections : ℕ) (links : List Link) (rows : List Row) (t : Tally)
    (position : ℕ) (l : Link)
    → decode_rows setup connections links rows ≡ ok t
    → get_elem? links position ≡ some l
    → origins_of links position rows ≡ counting 0 (last_sequence l.reserved)
unfolding decode_rows
decode_rows-origins setup connections links rows t position l h e =
    let (s, run, h1) = >>=-eq-ok (associate_all setup links start rows) _ h in
    let (t', _, h2) = >>=-eq-ok (finish_active setup (sort_active setup s.active) s.tally) _ h1 in
    let (_, ends, _) = >>=-eq-ok (check_origins setup s.origins 0 links) _ h2 in
    let (numbered, counted) = associate_all-origins setup links position rows start s run in
    let ended =
      check_origins-get_elem? setup s.origins links 0 position position l ends e (omega arith) in
    let total : length (origins_of links position rows) ≡ last_sequence l.reserved =
      omega (arith, counted, ended) in
    numbered ∙ ap (counting 0) total
