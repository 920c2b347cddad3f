-- ===== src/Deployment/Streams/Bounds.antt =====
-- What the readers of scripts/verify_deployment.py keep, whatever the order in which they run.
use Prim.Native.Nat.{◌≤◌}
use hp_http_server.Common.{
  ℕ, ◌+◌, ◌≡◌, refl, ap, sym, ◌∙◌, Bool, true, false, not, ◌||◌, Option, none, some, List, [], ◌∷◌,
  ◌++◌, length, All, arith, leb, if◌then◌else◌, if_holds, Bool-cases, subst, inl, inr,
}
use hp_http_server.Common.Text.{Text, is_empty}
use hp_http_server.Deployment.Process.{Stream, stdout, stderr}
use hp_http_server.Deployment.Streams.{
  Fault, too_large, not_utf8, read_failed, Event, line, broken, Reader, Readers, limit, start,
  strip_newlines, reader_of, put_reader, put_event, fail, keep_line, collect_line, step, collect,
}

-- The pipe is asked for `LIMIT + 1` bytes at most.
abbrev pub IsRead : Event → Type 0
IsRead (line stream raw running) = length raw ≤ limit + 1
IsRead (broken stream running) = Unit

-- A reader that did not fail has not counted more than the limit, and one that failed read no more.
abbrev pub IsCounted : Reader → Type 0
IsCounted reader =
    (reader.size ≤ (if reader.failed then limit + limit + 1 else limit))
    × ((not reader.failed || reader.is_done) ≡ true)

abbrev pub IsBounded : Readers → Type 0
IsBounded r =
    IsCounted r.out
    × IsCounted r.error
    × (r.events ≡ r.out.lines)
    × (r.forced ≡ (r.out.failed || r.error.failed))
    × (r.forced ≡ not (is_empty r.reader_errors))

some_error : {A : Type 0} → (errors : List A) → (e : A) → true ≡ not (is_empty (errors ++ e ∷ []))
some_error [] e = refl
some_error (x ∷ errors) e = refl

or_true : (b : Bool) → true ≡ (b || true)
or_true true = refl
or_true false = refl

reader_of-IsCounted : (stream : Stream) (r : Readers) → IsBounded r → IsCounted (reader_of stream r)
reader_of-IsCounted stdout r h = h.0
reader_of-IsCounted stderr r h = h.1

fail-IsBounded :
    (stream : Stream) (fault : Fault) (running : Bool) (reader : Reader) (r : Readers)
    → reader.size ≤ limit + limit + 1
    → reader.lines ≡ (reader_of stream r).lines
    → IsBounded r
    → IsBounded (fail stream fault running reader r)
fail-IsBounded stdout fault running reader r fits same (out, error, queue, forced, noted) =
    ((fits, refl), error, queue ∙ sym same, refl, some_error r.reader_errors fault)
fail-IsBounded stderr fault running reader r fits same (out, error, queue, forced, noted) =
    (out, (fits, refl), queue, or_true r.out.failed, some_error r.reader_errors fault)

put_line-IsBounded :
    (stream : Stream) (text : Text) (reader : Reader) (r : Readers)
    → IsCounted reader
    → reader.failed ≡ (reader_of stream r).failed
    → reader.lines ≡ (reader_of stream r).lines
    → IsBounded r
    → IsBounded (
        put_event stream text
          (put_reader stream (record reader { lines = reader.lines ++ text ∷ [] }) r))
put_line-IsBounded stdout text reader r counted kept same (out, error, queue, forced, noted) = (
  counted,
  error,
  ap (λ (l : List Text). l ++ text ∷ []) (queue ∙ sym same),
  forced ∙ ap (λ (b : Bool). b || r.error.failed) (sym kept),
  noted,
)
put_line-IsBounded stderr text reader r counted kept same (out, error, queue, forced, noted) =
    (out, counted, queue, forced ∙ ap (λ (b : Bool). r.out.failed || b) (sym kept), noted)

or_end : (failed : Bool) → (not failed || true) ≡ true
or_end true = refl
or_end false = refl

done-IsBounded :
    (stream : Stream) (r : Readers)
    → IsBounded r
    → IsBounded (put_reader stream (record (reader_of stream r) { is_done = true }) r)
done-IsBounded stdout r ((fits, known), error, queue, forced, noted) =
    ((fits, or_end r.out.failed), error, queue, forced, noted)
done-IsBounded stderr r (out, (fits, known), queue, forced, noted) =
    (out, (fits, or_end r.error.failed), queue, forced, noted)

unfailed : (failed done : Bool) → (not failed || done) ≡ true → done ≡ false → failed ≡ false
unfailed true done h going = cc (h, going)
unfailed false done h going = refl

within : (failed : Bool) (n : ℕ) → n ≤ limit → n ≤ (if failed then limit + limit + 1 else limit)
within true n h = omega (arith, h)
within false n h = h

at_most :
    (failed : Bool) (n : ℕ)
    → n ≤ (if failed then limit + limit + 1 else limit)
    → n ≤ limit + limit + 1
at_most true n h = h
at_most false n h = omega (arith, h)

case_done :
    (b : Bool) (r s : Readers)
    → IsBounded r
    → (b ≡ false → IsBounded s)
    → IsBounded (if b then r else s)
case_done true r s h k = h
case_done false r s h k = k refl

module _ (decode : Text → Option Text) where
  keep_line-IsBounded :
      (stream : Stream) (text : Option Text) (running : Bool) (reader : Reader) (r : Readers)
      → IsCounted reader
      → reader.failed ≡ (reader_of stream r).failed
      → reader.lines ≡ (reader_of stream r).lines
      → IsBounded r
      → IsBounded (keep_line decode stream text running reader r)
  keep_line-IsBounded stream none running reader r (fits, known) kept same h =
      fail-IsBounded stream not_utf8 running reader r (at_most reader.failed reader.size fits) same
        h
  keep_line-IsBounded stream (some text) running reader r counted kept same h =
      put_line-IsBounded stream (strip_newlines text) reader r counted kept same h

  collect_line-IsBounded :
      (stream : Stream) (raw : Text) (running : Bool) (r : Readers)
      → length raw ≤ limit + 1
      → (reader_of stream r).is_done ≡ false
      → IsBounded r
      → IsBounded (collect_line decode stream raw running (reader_of stream r) r)
  unfolding collect_line
  collect_line-IsBounded stream [] running r short going h = done-IsBounded stream r h
  collect_line-IsBounded stream (c ∷ raw) running r short going h =
      let old = reader_of stream r in
      let (fits, known) = reader_of-IsCounted stream r h in
      let before : old.size ≤ limit =
        subst (λ (b : Bool). old.size ≤ (if b then limit + limit + 1 else limit))
          (unfailed old.failed old.is_done known going) fits in
      let counted : Reader = record old { size = old.size + length (c ∷ raw) } in
      elim (Bool-cases (leb (old.size + length (c ∷ raw)) limit)) [
        | inl small ↦ rw small (
            keep_line-IsBounded stream (decode (c ∷ raw)) running counted r
              (within old.failed (old.size + length (c ∷ raw)) (leb_small small), known) refl refl
              h)
        | inr large ↦ rw large (
            fail-IsBounded stream too_large running counted r (omega (arith, before, short)) refl h)
      ]
    where
      leb_small : {m n : ℕ} → leb m n ≡ true → m ≤ n
      leb_small h = ground arith

  step-IsBounded : (e : Event) (r : Readers) → IsRead e → IsBounded r → IsBounded (step decode e r)
  unfolding step
  step-IsBounded (line stream raw running) r short h =
      case_done (reader_of stream r).is_done r
        (collect_line decode stream raw running (reader_of stream r) r) h
        (λ going. collect_line-IsBounded stream raw running r short going h)
  step-IsBounded (broken stream running) r short h =
      if_holds IsBounded (reader_of stream r).is_done r
        (fail stream read_failed running (reader_of stream r) r) h
        (fail-IsBounded stream read_failed running (reader_of stream r) r
          (at_most (reader_of stream r).failed (reader_of stream r).size
            (reader_of-IsCounted stream r h).0)
          refl h)

  run-IsBounded :
      (events : List Event) (r : Readers)
      → All IsRead events
      → IsBounded r
      → IsBounded (collect decode events r)
  unfolding collect
  run-IsBounded [] r short h = h
  run-IsBounded (e ∷ events) r (first, short) h =
      run-IsBounded events (step decode e r) short (step-IsBounded e r first h)

  -- After every schedule of the two readers whose reads have at most LIMIT + 1 bytes: each size is at most
  -- 2 LIMIT + 1, and at most LIMIT if the reader did not fail; the queue has the lines of the standard
  -- output, in order; and `forced` is set exactly if a reader failed, and then an error is noted.
  pub collect-IsBounded :
      (events : List Event) → All IsRead events → IsBounded (collect decode events start)
  collect-IsBounded events short =
      run-IsBounded events start short ((omega arith, refl), (omega arith, refl), refl, refl, refl)
