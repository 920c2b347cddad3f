-- ===== src/Demo/Output/Found.antt =====
-- A notice in the log of DemoServer in scripts/demo_task_application.py is found: the window of 8192
-- bytes is long enough for notices and blocks of up to 4096 bytes.
use Prim.Native.Nat.{ℕ, ◌+◌, ◌≤◌}
use hp_http_server.Common.{
  ◌≡◌, refl, ap, sym, ◌∙◌, Bool, true, false, not, ◌||◌, ◌&&◌, ◌⊎◌, if◌then◌else◌, Option, none,
  some, List, [], ◌∷◌, ◌++◌, length, length-append, All, arith, leb, if_holds, Bool-cases, inl, inr,
}
use hp_http_server.Common.Text.{Text, is_empty}
use hp_http_server.Common.Search.{AllDigits, int_of, search_text, search_text_complete}
use hp_http_server.Demo.Output.{
  Reader, Event, chunk, broken, take, max_log, start, keep, fail, call_raised, log_too_large,
  collect_block, put_number, put_port, write_block, take_port, Fault, number_too_long, step,
  collect_output, port_at,
}
use hp_http_server.Demo.Output.Window.{last_n, last_n-append, last_n_keeps}
use hp_http_server.Demo.Output.Bounds.{IsBounded, step-IsBounded}
use hp_http_server.Demo.Output.Notice.{notice_of, append_assoc, port_at_complete}

abbrev is_some : Option ℕ → Bool
is_some none = false
is_some (some port) = true

-- `wait_port` has returned a port, or would.
abbrev pub learned : Reader → Bool
learned r = is_some r.port || not (is_empty r.port_queue)

abbrev is_too_long : Option Fault → Bool
is_too_long (some number_too_long) = true
is_too_long _ = false

-- A port is learned, or a number was too long for `int` and ended the reader.
abbrev settled : Reader → Bool
settled r = learned r || (r.is_done && is_too_long r.reader_error)

-- `os.read` is asked for 4096 bytes.
abbrev pub IsRead : Event → Type 0
IsRead (chunk block running) = length block ≤ 4096
IsRead (broken running) = Unit
IsRead take = Unit

-- If the log has the notice of some port, which is not longer than a block, the search is settled.
abbrev IsAlert : Reader → Type 0
IsAlert r =
    (d : ℕ)
    → (digits before rest : Text) → AllDigits (d ∷ digits)
    → length (notice_of (d ∷ digits)) ≤ 4096
    → r.log ≡ before ++ (notice_of (d ∷ digits) ++ rest)
    → settled r ≡ true

split_end :
    (s b x y : Text)
    → s ++ b ≡ x ++ y
    → length b ≤ length y
    → (z : Text) × (y ≡ z ++ b) × (s ≡ x ++ z)
split_end s b [] y e h = (s, sym e, refl)
split_end [] b (c ∷ x) y e h = absurd (omega (arith, ap length e, length-append x y))
split_end (a ∷ s) b (c ∷ x) y e h =
    let same : s ++ b ≡ x ++ y = cc e in
    let head : a ≡ c = cc e in let (z, f, g) = split_end s b x y same h in (z, f, cc (head, g))

or_true : (b : Bool) → (b || true) ≡ true
or_true true = refl
or_true false = refl

put_number-settled :
    (number : Option ℕ) (running : Bool) (r : Reader) → settled (put_number number running r) ≡ true
put_number-settled none running r = or_true (learned r)
put_number-settled (some port) running r = ground (arith, or_true (is_some r.port))

put_number-log :
    (number : Option ℕ) (running : Bool) (r : Reader) → (put_number number running r).log ≡ r.log
put_number-log none running r = refl
put_number-log (some port) running r = refl

put_port-log :
    (found : Option Text) (ports : List ℕ) (running : Bool) (r : Reader)
    → (put_port found ports running r).log ≡ r.log
put_port-log none ports running r = refl
put_port-log (some group) (port ∷ ports) running r = refl
put_port-log (some group) [] running r = put_number-log (int_of group) running r

put_port-settled :
    (found : Option Text) (ports : List ℕ) (running : Bool) (r : Reader)
    → settled r ≡ true
    → settled (put_port found ports running r) ≡ true
put_port-settled none ports running r h = h
put_port-settled (some group) (port ∷ ports) running r h = h
put_port-settled (some group) [] running r h = put_number-settled (int_of group) running r

put_port-found :
    (group : Text) (found : Option Text) (ports : List ℕ) (running : Bool) (r : Reader)
    → found ≡ some group
    → r.port_queue ≡ ports
    → settled (put_port found ports running r) ≡ true
put_port-found group none ports running r h e = cc h
put_port-found group (some other) (port ∷ ports) running r h e =
    rw e (ground (arith, or_true (is_some r.port)))
put_port-found group (some other) [] running r h e = put_number-settled (int_of other) running r

search_window :
    (block : Text) (r : Reader) (d : ℕ) (digits before rest : Text)
    → IsBounded r
    → AllDigits (d ∷ digits)
    → length (notice_of (d ∷ digits) ++ rest) ≤ 8192
    → r.log ++ block ≡ before ++ (notice_of (d ∷ digits) ++ rest)
    → (group : Text) × (search_text port_at (last_n 8192 (r.pending ++ block)) ≡ some group)
search_window block r d digits before rest (size, limit, window, queue) all fits e =
    let (u, f) = last_n_keeps 8192 before (notice_of (d ∷ digits) ++ rest) fits in
    let (n, found) =
      search_text_complete port_at u (notice_of (d ∷ digits) ++ rest) (d ∷ digits)
        (port_at_complete d digits rest all) in
    (
      n,
      ap (search_text port_at) (
            ap (λ (x : Text). last_n 8192 (x ++ block)) window
            ∙ last_n-append 8192 r.log block
            ∙ ap (last_n 8192) e
            ∙ f)
          ∙ found,
    )

keep-IsAlert :
    (block : Text) (running : Bool) (r : Reader)
    → length block ≤ 4096
    → IsBounded r
    → IsAlert r
    → IsAlert (keep block running r)
unfolding keep
keep-IsAlert block running r short bounded alert d digits before rest all small e =
    elim (Bool-cases (leb (length block) (length rest))) [
      | inl earlier ↦
          let assoc = append_assoc before (notice_of (d ∷ digits)) rest in
          let (z, f, g) =
            split_end r.log block (before ++ notice_of (d ∷ digits)) rest (e' ∙ sym assoc)
              (ground arith) in
          put_port-settled (search_text port_at (last_n 8192 (r.pending ++ block))) r.port_queue
            running (write_block block r)
            (alert d digits before z all small (g ∙ append_assoc before (notice_of (d ∷ digits)) z))
      | inr now ↦
          let (group, found) =
            search_window block r d digits before rest bounded all
              (ground (arith, length-append (notice_of (d ∷ digits)) rest)) e' in
          put_port-found group (search_text port_at (last_n 8192 (r.pending ++ block))) r.port_queue
            running (write_block block r) found refl
    ]
  where
    e' : r.log ++ block ≡ before ++ (notice_of (d ∷ digits) ++ rest)
    e' =
        sym (
          put_port-log (search_text port_at (last_n 8192 (r.pending ++ block))) r.port_queue running
            (write_block block r))
        ∙ e

-- Before its loop has ended, the reader has not ended with a number that is too long.
going_learned :
    (learnt done too_long : Bool)
    → done ≡ false
    → (learnt || (done && too_long)) ≡ true
    → learnt ≡ true
going_learned true done too_long going h = refl
going_learned false done too_long going h = ground (arith, going, h)

done_settled :
    (learnt done too_long : Bool)
    → (learnt || (done && too_long)) ≡ true
    → (learnt || too_long) ≡ true
done_settled learnt done too_long h = ground (arith, h)

fail-IsAlert :
    (fault : Fault) (running : Bool) (r : Reader)
    → r.is_done ≡ false
    → IsAlert r
    → IsAlert (fail fault running r)
fail-IsAlert fault running r going alert d digits before rest all small e =
    rw
      (going_learned (learned r) r.is_done (is_too_long r.reader_error) going
        (alert d digits before rest all small e))
      refl

collect_block-IsAlert :
    (block : Text) (running : Bool) (r : Reader)
    → length block ≤ 4096
    → r.is_done ≡ false
    → IsBounded r
    → IsAlert r
    → IsAlert (collect_block block running r)
unfolding collect_block
collect_block-IsAlert [] running r short going bounded alert = λ d digits before rest all small e.
    done_settled (learned r) r.is_done (is_too_long r.reader_error)
      (alert d digits before rest all small e)
collect_block-IsAlert (c ∷ block) running r short going bounded h =
    if_holds IsAlert (leb (r.size + length (c ∷ block)) max_log) (keep (c ∷ block) running r)
      (fail log_too_large running r) (keep-IsAlert (c ∷ block) running r short bounded h)
      (fail-IsAlert log_too_large running r going h)

case_done :
    (b : Bool) (r s : Reader) → IsAlert r → (b ≡ false → IsAlert s) → IsAlert (if b then r else s)
case_done true r s h k = h
case_done false r s h k = k refl

take_port-IsAlert :
    (port : Option ℕ) (ports : List ℕ) (r : Reader)
    → r.port ≡ port
    → IsAlert r
    → IsAlert (take_port port ports r)
take_port-IsAlert (some port) ports r e h = h
take_port-IsAlert none [] r e h = h
take_port-IsAlert none (port ∷ ports) r e h = λ d digits before rest all small f. refl

step-IsAlert : (e : Event) (r : Reader) → IsRead e → IsBounded r → IsAlert r → IsAlert (step e r)
unfolding step
step-IsAlert take r short bounded h = take_port-IsAlert r.port r.port_queue r refl h
step-IsAlert (chunk block running) r short bounded h =
    case_done r.is_done r (collect_block block running r) h
      (λ going. collect_block-IsAlert block running r short going bounded h)
step-IsAlert (broken running) r short bounded h =
    case_done r.is_done r (fail call_raised running r) h
      (λ going. fail-IsAlert call_raised running r going h)

run-IsAlert :
    (events : List Event) (r : Reader)
    → All IsRead events
    → IsBounded r
    → IsAlert r
    → IsAlert (collect_output events r)
unfolding collect_output
run-IsAlert [] r short bounded h = h
run-IsAlert (e ∷ events) r (first, short) bounded h =
    run-IsAlert events (step e r) short (step-IsBounded e r bounded)
      (step-IsAlert e r first bounded h)

start-IsAlert : IsAlert start
start-IsAlert d digits before rest all small e =
    absurd (omega (arith, ap length e, length-append before (notice_of (d ∷ digits) ++ rest)))

too_long_error : (found : Option Fault) → is_too_long found ≡ true → found ≡ some number_too_long
too_long_error none h = cc h
too_long_error (some log_too_large) h = cc h
too_long_error (some number_too_long) h = refl
too_long_error (some call_raised) h = cc h

settled_cases :
    (r : Reader) → settled r ≡ true → (learned r ≡ true) ⊎ (r.reader_error ≡ some number_too_long)
settled_cases r h = elim (Bool-cases (learned r)) [
  | inl learnt ↦ inl learnt
  | inr other ↦ inr (too_long_error r.reader_error (ground (arith, h, other)))
]

-- After every schedule from the start whose blocks have at most 4096 bytes: if the log has a notice
-- "listening on port N." of at most 4096 bytes, wherever the blocks cut it, `wait_port` has returned a
-- port, or one waits in the queue, or the reader has failed since `int` refused a number of more than
-- 4300 digits.
pub collect_output-finds :
    (events : List Event)
    → All IsRead events
    → (d : ℕ) → (digits before rest : Text) → AllDigits (d ∷ digits)
    → length (notice_of (d ∷ digits)) ≤ 4096
    → (collect_output events start).log ≡ before ++ (notice_of (d ∷ digits) ++ rest)
    → (learned (collect_output events start) ≡ true)
      ⊎ ((collect_output events start).reader_error ≡ some number_too_long)
collect_output-finds events short d digits before rest all small e =
    settled_cases (collect_output events start) (
      run-IsAlert events start short (refl, omega arith, refl, omega arith) start-IsAlert d digits
        before rest all small e)
