-- ===== src/Demo/Output/Bounds.antt =====
-- What the log reader of scripts/demo_task_application.py keeps, whatever the schedule.
use Prim.Native.Nat.{ℕ, ◌+◌, ◌≤◌}
use hp_http_server.Common.{
  ◌≡◌, refl, ap, ◌∙◌, Bool, true, Option, none, some, List, [], ◌∷◌, ◌++◌, length, length-append,
  arith, leb, Bool-cases, if_holds, inl, inr,
}
use hp_http_server.Common.Text.{Text}
use hp_http_server.Common.Search.{search_text, int_of}
use hp_http_server.Demo.Output.{
  Reader, Event, chunk, broken, take, max_log, start, keep, fail, call_raised, collect_block,
  put_number, put_port, write_block, take_port, step, collect_output, port_at,
}
use hp_http_server.Demo.Output.Window.{last_n, last_n-append}

-- The file has `size` bytes and at most 16 MiB, `pending` is its last 8192 bytes, and the queue has
-- one port at most.
abbrev pub IsBounded : Reader → Type 0
IsBounded r =
    (r.size ≡ length r.log)
    × (length r.log ≤ max_log)
    × (r.pending ≡ last_n 8192 r.log)
    × (length r.port_queue ≤ 1)

put_number-IsBounded :
    (number : Option ℕ) (running : Bool) (r : Reader)
    → IsBounded r
    → IsBounded (put_number number running r)
put_number-IsBounded none running r h = h
put_number-IsBounded (some port) running r (size, limit, window, queue) =
    (size, limit, window, omega arith)

put_port-IsBounded :
    (found : Option Text) (ports : List ℕ) (running : Bool) (r : Reader)
    → IsBounded r
    → IsBounded (put_port found ports running r)
put_port-IsBounded none ports running r h = h
put_port-IsBounded (some digits) (port ∷ ports) running r h = h
put_port-IsBounded (some digits) [] running r h = put_number-IsBounded (int_of digits) running r h

pub write_block-IsBounded :
    (block : Text) (r : Reader)
    → leb (r.size + length block) max_log ≡ true
    → IsBounded r
    → IsBounded (write_block block r)
write_block-IsBounded block r fits (size, limit, window, queue) = (
  omega (arith, length-append r.log block),
  ground (arith, length-append r.log block),
  ap (λ (x : Text). last_n 8192 (x ++ block)) window ∙ last_n-append 8192 r.log block,
  queue,
)

keep-IsBounded :
    (block : Text) (running : Bool) (r : Reader)
    → leb (r.size + length block) max_log ≡ true
    → IsBounded r
    → IsBounded (keep block running r)
unfolding keep
keep-IsBounded block running r fits h =
    put_port-IsBounded (search_text port_at (last_n 8192 (r.pending ++ block))) r.port_queue running
      (write_block block r) (write_block-IsBounded block r fits h)

collect_block-IsBounded :
    (block : Text) (running : Bool) (r : Reader)
    → IsBounded r
    → IsBounded (collect_block block running r)
unfolding collect_block
collect_block-IsBounded [] running r h = h
collect_block-IsBounded (c ∷ block) running r h =
    elim (Bool-cases (leb (r.size + length (c ∷ block)) max_log)) [
      | inl fits ↦ rw fits (keep-IsBounded (c ∷ block) running r fits h)
      | inr full ↦ rw full h
    ]

take_port-IsBounded :
    (port : Option ℕ) (ports : List ℕ) (r : Reader)
    → r.port_queue ≡ ports
    → IsBounded r
    → IsBounded (take_port port ports r)
take_port-IsBounded (some port) ports r e h = h
take_port-IsBounded none [] r e h = h
take_port-IsBounded none (port ∷ ports) r e (size, limit, window, queue) =
    (size, limit, window, omega (arith, (rw e at queue)))

pub step-IsBounded : (e : Event) (r : Reader) → IsBounded r → IsBounded (step e r)
unfolding step
step-IsBounded take r h = take_port-IsBounded r.port r.port_queue r refl h
step-IsBounded (chunk block running) r h =
    if_holds IsBounded r.is_done r (collect_block block running r) h
      (collect_block-IsBounded block running r h)
step-IsBounded (broken running) r h =
    if_holds IsBounded r.is_done r (fail call_raised running r) h h

run-IsBounded :
    (events : List Event) (r : Reader) → IsBounded r → IsBounded (collect_output events r)
unfolding collect_output
run-IsBounded [] r h = h
run-IsBounded (e ∷ events) r h = run-IsBounded events (step e r) (step-IsBounded e r h)

-- After every schedule of the reader and the waiter, from the start: `size` is the length of what was
-- written to the log, which is at most 16 MiB, `pending` is the last 8192 bytes of it, and at most one
-- port waits in the queue.
pub collect_output-IsBounded : (events : List Event) → IsBounded (collect_output events start)
collect_output-IsBounded events = run-IsBounded events start (refl, omega arith, refl, omega arith)
