-- ===== src/Decoder/Threads/Recorded.antt =====
-- What `thread_records` guarantees of the rows of a file that it accepts.
use mathlib.Core.List.{append_assoc, append-nil}
use hp_http_server.Common.{
  ℕ, suc, zero, ◌≤◌, ◌<◌, ◌≡◌, refl, ◌∙◌, sym, ap, subst, Bool, true, ◌&&◌, List, [], ◌∷◌, ◌++◌,
  Option, none, some, arith, ltb, leb, ◌==◌, length, ok, demand, >>=-eq-ok, demand-eq-ok,
  ok-injective,
}
use hp_http_server.Common.Int.{ℤ}
use hp_http_server.Decoder.Faults.{
  clock_outside_coverage, unknown_kind_or_sequence, timestamp_bounds_mismatch,
}
use hp_http_server.Decoder.Wire.{WireRecord, is_in, validate_payload}
use hp_http_server.Decoder.Threads.{
  Side, kinds_of, Header, EventsFile, Expected, Recording, Row, check_header, Progress, initial,
  row_of, check_record, check_records, read_header, thread_records,
}

module _ (errors : ℤ → Bool) (side : Side) (e : Expected) (recording : Recording) where
  -- Row number `k` of the file, not before `low`, inside the recording, from the expected thread.
  pub record IsRow (k low : ℕ) (r : Row) : Type 0 where
    pub numbered : r.ordinal ≡ k
    pub not_before : low ≤ r.timestamp
    pub from_start : recording.start_ns ≤ r.timestamp
    pub until_end : r.timestamp ≤ recording.end_ns
    pub own_side : r.endpoint ≡ side
    pub own_worker : r.worker ≡ e.worker
    pub own_kind : is_in r.kind (kinds_of side) ≡ true
    pub positive_sequence : 0 < r.sequence

  abbrev pub IsRecorded : ℕ → ℕ → List Row → Type 0
  IsRecorded k low [] = Unit {0}
  IsRecorded k low (r ∷ rows) = IsRow k low r × IsRecorded (suc k) r.timestamp rows

  -- One record adds one row.
  record Adds (p q : Progress) (r : Row) : Type 0 where
    row : IsRow p.ordinal p.previous r
    rows : q.rows ≡ p.rows ++ r ∷ []
    ordinal : q.ordinal ≡ suc p.ordinal
    previous : q.previous ≡ r.timestamp

  demanded_row :
      (k low : ℕ) (r : WireRecord)
      → (leb low r.timestamp
          && leb recording.start_ns r.timestamp
          && leb r.timestamp recording.end_ns)
        ≡ true
      → (is_in r.kind (kinds_of side) && ltb 0 r.sequence) ≡ true
      → IsRow k low (row_of errors side e recording k r)
  unfolding row_of
  demanded_row k low r clock kind = record {
    numbered = refl;
    not_before = ground (arith, clock);
    from_start = ground (arith, clock);
    until_end = ground (arith, clock);
    own_side = refl;
    own_worker = refl;
    own_kind = ground (arith, kind);
    positive_sequence = ground (arith, kind);
  }

  check_record-Adds :
      (p q : Progress) (r : WireRecord)
      → check_record errors side e recording p r ≡ ok q
      → Adds p q (row_of errors side e recording p.ordinal r)
  unfolding check_record row_of
  check_record-Adds p q r h =
      let (_, clock, h1) =
        >>=-eq-ok
          (demand
            (leb p.previous r.timestamp
              && leb recording.start_ns r.timestamp
              && leb r.timestamp recording.end_ns)
            clock_outside_coverage)
          _ h in
      let (_, kind, h2) =
        >>=-eq-ok
          (demand (is_in r.kind (kinds_of side) && ltb 0 r.sequence) unknown_kind_or_sequence) _
          h1 in
      let (_, _, f) = >>=-eq-ok (validate_payload errors r.kind r.value r.flags r.result) _ h2 in
      let same = ok-injective f in
      record {
        row = demanded_row p.ordinal p.previous r (demand-eq-ok _ _ clock) (demand-eq-ok _ _ kind);
        rows = ap (λ (x : Progress). x.rows) (sym same);
        ordinal = ap (λ (x : Progress). x.ordinal) (sym same) ∙ omega arith;
        previous = ap (λ (x : Progress). x.previous) (sym same);
      }

  check_records-IsRecorded :
      (left : ℕ) (p q : Progress) (records : List WireRecord)
      → check_records errors side e recording left p records ≡ ok q
      → (rows : List Row) × (q.rows ≡ p.rows ++ rows)
        × (length rows ≡ left)
        × IsRecorded p.ordinal p.previous rows
  unfolding check_records
  check_records-IsRecorded zero p q records h =
      ([], ap (λ (x : Progress). x.rows) (sym (ok-injective h)) ∙ sym (append-nil p.rows), refl, tt)
  check_records-IsRecorded (suc left) p q [] h = cc
  check_records-IsRecorded (suc left) p q (r ∷ records) h =
      let (p', one, h') = >>=-eq-ok (check_record errors side e recording p r) _ h in
      let step = check_record-Adds p p' r one in
      let new = row_of errors side e recording p.ordinal r in
      let (rows, all_rows, count, recorded) = check_records-IsRecorded left p' q records h' in
      (
        new ∷ rows,
        all_rows ∙ ap (λ (x : List Row). x ++ rows) step.rows ∙ append_assoc p.rows (new ∷ []) rows,
        ap suc count,
        (
          step.row,
          subst (λ (k : ℕ). IsRecorded k new.timestamp rows) step.ordinal
              (subst (λ (low : ℕ). IsRecorded p'.ordinal low rows) step.previous recorded),
        ),
      )

  read_header-eq-ok :
      (found : Option Header) (h : Header)
      → read_header errors side e recording found ≡ ok h
      → found ≡ some h
  unfolding read_header
  read_header-eq-ok none h s = cc
  read_header-eq-ok (some g) h s = ap some (ok-injective s)

  -- If a writer's file is accepted, it has a header, the rows are as many as the header says, and
  -- they are numbered from 0, in the order of time, within the recording, from the expected worker
  -- and side, each of a kind of that side and with a positive sequence.
  pub thread_records-IsRecorded :
      (f : EventsFile) (rows : List Row)
      → thread_records errors side e recording f ≡ ok rows
      → (h : Header) × (f.header ≡ some h) × (length rows ≡ h.count) × IsRecorded 0 0 rows
  unfolding thread_records
  thread_records-IsRecorded f rows s =
      let (h, found, s1) = >>=-eq-ok (read_header errors side e recording f.header) _ s in
      let (_, _, s2) = >>=-eq-ok (check_header f h e) _ s1 in
      let (p, loop, s3) =
        >>=-eq-ok (check_records errors side e recording h.count initial f.records) _ s2 in
      let (_, _, s4) =
        >>=-eq-ok
          (demand (p.actual_first == h.first && p.actual_last == h.last) timestamp_bounds_mismatch)
          _ s3 in
      let (read, all_rows, count, recorded) =
        check_records-IsRecorded h.count initial p f.records loop in
      let same : read ≡ rows = sym all_rows ∙ ok-injective s4 in
      (
        h,
        read_header-eq-ok f.header h found,
        subst (λ (x : List Row). length x ≡ h.count) same count,
        subst (IsRecorded 0 0) same recorded,
      )
