-- ===== src/Timeline/Analyze/Sequences.antt =====
-- Which requests a report of `analyze` has rows for.
use hp_http_server.Common.{
  ℕ, ◌≤◌, ◌≡◌, refl, ◌∙◌, sym, ap, Bool, true, false, ◌&&◌, List, [], ◌∷◌, ◌==◌, any, All, ok,
  >>=-eq-ok, ok-injective, subst,
}
use hp_http_server.Timeline.Document.{Key, key_eq, Document, Connection, Metadata, Boundary}
use hp_http_server.Timeline.Events.{Group}
use hp_http_server.Timeline.Events.Grouping.{
  has_group, has_sequence, has_sequence-between, Distinct, Agrees,
}
use hp_http_server.Timeline.Events.Attribution.{
  IsAttributed, is_of, Gathers, check_events-Gathers, check_connections-eq-append,
}
use hp_http_server.Timeline.Rows.{Row, take_points, classify, row_of, rows_of}
use hp_http_server.Timeline.Analyze.{Report, nothing_collected, analyze}
use hp_http_server.Timeline.Analyze.Stages.{Stages, stages}

abbrev pub is_row : Key → ℕ → Row → Bool
is_row k n r = key_eq k r.key && n == r.sequence

abbrev pub has_row : Key → ℕ → List Row → Bool
has_row k n rows = any (is_row k n) rows

-- No two rows are of one request.
abbrev pub DistinctRows : List Row → Type 0
DistinctRows [] = Unit
DistinctRows (r ∷ rows) = (has_row r.key r.sequence rows ≡ false) × DistinctRows rows

row_of-keeps :
    (m : Metadata) (boundaries : List Boundary) (g : Group) (r : Row)
    → row_of m boundaries g ≡ ok r
    → (r.key ≡ g.key) × (r.sequence ≡ g.sequence)
unfolding row_of
row_of-keeps m boundaries g r h =
    let (p, _, h') =
      >>=-eq-ok (take_points (record { point = []; activities = [] }) g.events) _ h in
    let (c, e, f) = >>=-eq-ok (classify m boundaries g.key g.sequence p) _ h' in
    let same = sym (ok-injective f) in
    (ap (λ (x : Row). x.key) same, ap (λ (x : Row). x.sequence) same)

-- The rows stand for the groups, one for one.
record Stands (groups : List Group) (rows : List Row) : Type 0 where
  requests : (k : Key) (n : ℕ) → has_row k n rows ≡ has_group k n groups
  distinct : Distinct groups → DistinctRows rows

rows_of-Stands :
    (m : Metadata) (boundaries : List Boundary) (groups : List Group) (rows : List Row)
    → rows_of m boundaries groups ≡ ok rows
    → Stands groups rows
unfolding rows_of
rows_of-Stands m boundaries [] rows h =
    subst (Stands []) (ok-injective h) (record { requests = λ k n. refl; distinct = λ d. tt })
rows_of-Stands m boundaries (g ∷ groups) rows h =
    let (row, e, h') = >>=-eq-ok (row_of m boundaries g) _ h in
    let (rest, e', f) = >>=-eq-ok (rows_of m boundaries groups) _ h' in
    let later = rows_of-Stands m boundaries groups rest e' in
    let (k, n) = row_of-keeps m boundaries g row e in
    subst (Stands (g ∷ groups)) (ok-injective f) (record {
      requests = λ key number. rw (k, n) (rw (later.requests key number));
      distinct = λ d. (rw (k, n) (rw (later.requests g.key g.sequence) d.0), later.distinct d.1);
    })

-- The facts of the stages that the theorems below share.
record Facts (d : Document) (r : Report) : Type 0 where
  at : Stages d r
  gathers : Gathers at.connections nothing_collected d.events at.collected
  stands : Stands at.collected.groups r.requests
  whole : at.connections ≡ d.connections

facts : (d : Document) (r : Report) → analyze d ≡ ok r → Facts d r
facts d r h =
    let s = stages d r h in
    record {
      at = s;
      gathers =
          check_events-Gathers s.connections nothing_collected d.events s.collected s.gathered;
      stands = rows_of-Stands d.metadata d.request_boundaries s.collected.groups r.requests s.built;
      whole = check_connections-eq-append [] d.connections s.connections s.connected;
    }

-- If a report is returned, every event of the document is attributed (`IsAttributed`): a listed
-- connection has its key, its owner is the one of that connection at its endpoint, its kind is one
-- of that endpoint, it has a time, and its sequence is a positive integer.
pub analyze-IsAttributed :
    (d : Document) (r : Report) → analyze d ≡ ok r → All (IsAttributed d.connections) d.events
analyze-IsAttributed d r h =
    let f = facts d r h in
    subst (λ (known : List Connection). All (IsAttributed known) d.events) f.whole
      f.gathers.attributed

-- If a report is returned, a request has a row exactly if some event of the document is of it, and
-- no two rows are of one request.
pub analyze-rows_iff_events :
    (d : Document) (r : Report)
    → analyze d ≡ ok r
    → ((k : Key) (n : ℕ) → has_row k n r.requests ≡ any (is_of k n) d.events)
      × DistinctRows r.requests
analyze-rows_iff_events d r h =
    let f = facts d r h in
    (
      λ k n. f.stands.requests k n ∙ f.gathers.requests k n,
      f.stands.distinct (f.gathers.distinct tt),
    )

-- If a report has rows for two requests of a connection, it has a row for each sequence between.
pub analyze_no_gap :
    (d : Document) (r : Report) (k : Key) (a b n : ℕ)
    → analyze d ≡ ok r
    → has_row k a r.requests ≡ true
    → has_row k b r.requests ≡ true
    → a ≤ n
    → n ≤ b
    → has_row k n r.requests ≡ true
analyze_no_gap d r k a b n h ha hb low high =
    let f = facts d r h in
    let same : (m : ℕ) → has_row k m r.requests ≡ has_sequence k m f.at.collected.sequences =
      λ m. f.stands.requests k m ∙ f.gathers.agrees nothing_agrees k m in
    same n
    ∙ has_sequence-between k f.at.collected.sequences a b n f.at.gapless (sym (same a) ∙ ha)
        (sym (same b) ∙ hb) low high
  where
    nothing_agrees : Agrees nothing_collected
    nothing_agrees k n = unfold has_sequence in refl
