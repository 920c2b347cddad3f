-- ===== src/Demo/Output/Announced.antt =====
-- The ports that DemoServer in scripts/demo_task_application.py learns from its log, and that it learns
-- them.
use Prim.Native.Nat.{ℕ, ◌+◌}
use hp_http_server.Common.{
  ◌≡◌, refl, ap, sym, ◌∙◌, Bool, Option, none, some, List, [], ◌∷◌, ◌++◌, length, All, All-mono,
  arith, leb, Bool-cases, if_holds, inl, inr,
}
use hp_http_server.Common.Text.{Text, codes}
use hp_http_server.Common.Search.{
  search_text, search_text_sound, int_of, int_of_sound, decimal_from,
}
use hp_http_server.Demo.Output.{
  Reader, Event, chunk, broken, take, max_log, start, keep, fail, call_raised, collect_block,
  put_number, put_port, write_block, take_port, step, collect_output, port_at,
}
use hp_http_server.Demo.Output.Window.{last_n, last_n_end}
use hp_http_server.Demo.Output.Bounds.{IsBounded, step-IsBounded}
use hp_http_server.Demo.Output.Notice.{IsNotice, append_assoc, port_at_sound}

-- The log has the notice of the port at some place.
abbrev pub IsAnnounced : Text → ℕ → Type 0
IsAnnounced log port = (before rest : Text) × (log ≡ before ++ rest) × IsNotice rest port

abbrev pub Given : (ℕ → Type 0) → Option ℕ → Type 0
Given P none = Unit
Given P (some port) = P port

-- What the queue has and what the waiter took is announced.
abbrev pub IsTruthful : Reader → Type 0
IsTruthful r = All (IsAnnounced r.log) r.port_queue × Given (IsAnnounced r.log) r.port

still_said : (log block : Text) (port : ℕ) → IsAnnounced log port → IsAnnounced (log ++ block) port
still_said log block port (before, rest, e, (d, digits, after, all, f, number)) = (
  before,
  rest ++ block,
  ap (λ (x : Text). x ++ block) e ∙ append_assoc before rest block,
  (
    d,
    digits,
    after ++ block,
    all,
    ap (λ (x : Text). x ++ block) f
        ∙ append_assoc (codes "listening on port ") ((d ∷ digits) ++ (b'.' ∷ after)) block
        ∙ ap (λ (x : Text). codes "listening on port " ++ x)
            (append_assoc (d ∷ digits) (b'.' ∷ after) block),
    number,
  ),
)

option_said :
    (log block : Text) (port : Option ℕ)
    → Given (IsAnnounced log) port
    → Given (IsAnnounced (log ++ block)) port
option_said log block none h = tt
option_said log block (some port) h = still_said log block port h

search_said :
    (window log : Text) (u : Text)
    → log ≡ u ++ window
    → (group : Text) → search_text port_at window ≡ some group
    → (port : ℕ) → int_of group ≡ some port
    → IsAnnounced log port
search_said window log u e group h port number =
    let (before, rest, f, found) = search_text_sound port_at window group h in
    let (d, digits, after, all, notice, same) = port_at_sound rest group found in
    (
      u ++ before,
      rest,
      e ∙ ap (λ (x : Text). u ++ x) f ∙ sym (append_assoc u before rest),
      (d, digits, after, all, notice, int_of_sound group port number ∙ ap (decimal_from 0) same),
    )

put_number-IsTruthful :
    (number : Option ℕ) (running : Bool) (r : Reader)
    → ((port : ℕ) → number ≡ some port → IsAnnounced r.log port)
    → IsTruthful r
    → IsTruthful (put_number number running r)
put_number-IsTruthful none running r f h = h
put_number-IsTruthful (some port) running r f (queued, taken) = ((f port refl, tt), taken)

put_port-IsTruthful :
    (found : Option Text) (ports : List ℕ) (running : Bool) (r : Reader)
    → ((group : Text)
        → found ≡ some group
        → (port : ℕ) → int_of group ≡ some port
        → IsAnnounced r.log port)
    → IsTruthful r
    → IsTruthful (put_port found ports running r)
put_port-IsTruthful none ports running r f h = h
put_port-IsTruthful (some group) (port ∷ ports) running r f h = h
put_port-IsTruthful (some group) [] running r f h =
    put_number-IsTruthful (int_of group) running r (f group refl) h

window_end :
    (block : Text) (r : Reader)
    → IsBounded r
    → (u : Text) × (r.log ++ block ≡ u ++ last_n 8192 (r.pending ++ block))
window_end block r (size, limit, window, queue) =
    let (v, e) = last_n_end 8192 r.log in
    let (u, f) = last_n_end 8192 (r.pending ++ block) in
    (
      v ++ u,
      ap (λ (x : Text). x ++ block) (e ∙ ap (λ (x : Text). v ++ x) (sym window))
          ∙ append_assoc v r.pending block
          ∙ ap (λ (x : Text). v ++ x) f
          ∙ sym (append_assoc v u (last_n 8192 (r.pending ++ block))),
    )

keep-IsTruthful :
    (block : Text) (running : Bool) (r : Reader)
    → IsBounded r
    → IsTruthful r
    → IsTruthful (keep block running r)
unfolding keep
keep-IsTruthful block running r bounded (queued, taken) =
    let (u, e) = window_end block r bounded in
    put_port-IsTruthful (search_text port_at (last_n 8192 (r.pending ++ block))) r.port_queue
      running (write_block block r)
      (search_said (last_n 8192 (r.pending ++ block)) (r.log ++ block) u e)
      (
        All-mono (IsAnnounced r.log) (IsAnnounced (r.log ++ block)) r.port_queue
            (still_said r.log block) queued,
        option_said r.log block r.port taken,
      )

collect_block-IsTruthful :
    (block : Text) (running : Bool) (r : Reader)
    → IsBounded r
    → IsTruthful r
    → IsTruthful (collect_block block running r)
unfolding collect_block
collect_block-IsTruthful [] running r bounded h = h
collect_block-IsTruthful (c ∷ block) running r bounded h =
    elim (Bool-cases (leb (r.size + length (c ∷ block)) max_log)) [
      | inl fits ↦ rw fits (keep-IsTruthful (c ∷ block) running r bounded h)
      | inr full ↦ rw full h
    ]

take_port-IsTruthful :
    (port : Option ℕ) (ports : List ℕ) (r : Reader)
    → r.port_queue ≡ ports
    → IsTruthful r
    → IsTruthful (take_port port ports r)
take_port-IsTruthful (some port) ports r e h = h
take_port-IsTruthful none [] r e h = h
take_port-IsTruthful none (port ∷ ports) r e (queued, taken) =
    let waiting = rw e at queued in (waiting.1, waiting.0)

step-IsTruthful : (e : Event) (r : Reader) → IsBounded r → IsTruthful r → IsTruthful (step e r)
unfolding step
step-IsTruthful take r bounded h = take_port-IsTruthful r.port r.port_queue r refl h
step-IsTruthful (chunk block running) r bounded h =
    if_holds IsTruthful r.is_done r (collect_block block running r) h
      (collect_block-IsTruthful block running r bounded h)
step-IsTruthful (broken running) r bounded h =
    if_holds IsTruthful r.is_done r (fail call_raised running r) h h

run-IsTruthful :
    (events : List Event) (r : Reader)
    → IsBounded r
    → IsTruthful r
    → IsTruthful (collect_output events r)
unfolding collect_output
run-IsTruthful [] r bounded h = h
run-IsTruthful (e ∷ events) r bounded h =
    run-IsTruthful events (step e r) (step-IsBounded e r bounded) (step-IsTruthful e r bounded h)

-- After every schedule from the start, the port that `wait_port` returned, if it did, and the ports in
-- the queue are each the number of a notice "listening on port N." that stands in the log.
pub collect_output-IsTruthful : (events : List Event) → IsTruthful (collect_output events start)
collect_output-IsTruthful events =
    run-IsTruthful events start (refl, omega arith, refl, omega arith) (tt, tt)
