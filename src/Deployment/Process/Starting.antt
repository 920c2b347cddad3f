-- ===== src/Deployment/Process/Starting.antt =====
-- How the constructor of ServerProcess in scripts/verify_deployment.py ends.
use hp_http_server.Common.{
  ℕ, not, sym, ◌≡◌, refl, ap, Bool, true, false, Option, none, some, List, [], ◌∷◌, ◌++◌,
  if◌then◌else◌, Outcome, ok, err, ◌>>=◌, ◌>>◌, demand,
}
use hp_http_server.Common.Text.{Text, codes}
use hp_http_server.Deployment.Process.{
  Stream, stdout, stderr, Platform, Injection, Process, error_of, fail_with, fresh, Started,
  try_call, start_reader, is_before_popen, is_before_port, find_ports, find_admin_port, port_in,
  listening, admin_listening, after_readers, note_pid, start_process,
}
use hp_http_server.Deployment.Process.Ending.{IsFailed, fail_with-IsFailed}

module _ {State : Type 0} (platform : Platform State) where
  abbrev pub Ports : Type 0
  Ports = Option ℕ × Option ℕ

  -- What the calls of the constructor come to, one after the other and without the cleanup: the two ports,
  -- if they were asked for, or the first error, an injected one included.
  abbrev pub port_calls : State → Outcome Text Ports
  port_calls system =
      let business = platform.event listening system in
      let admin = platform.event admin_listening business.0 in
      business.1 >>= λ line. port_in listening (codes ".") line >>= λ port. admin.1 >>= λ text.
      port_in (codes "HP_ADMIN_LISTENING 127.0.0.1 ") [] text >>= λ admin_port.
      ok (some port, some admin_port)

  abbrev pub ready_calls : Option Injection → Bool → State → Outcome Text Ports
  ready_calls fault ports system =
      demand (not (is_before_port platform fault)) (codes "injected before-port")
      >> (if ports then port_calls system else ok (none, none))

  abbrev pub start_calls : List Text → Option Injection → Bool → State → Outcome Text Ports
  start_calls argv fault ports system =
      let spawned = platform.spawn argv system in
      let out = platform.launch stdout spawned.0 in
      let error = platform.launch stderr out.0 in
      demand (not (is_before_popen platform fault)) (codes "injected before-popen")
      >> (spawned.1 >>= λ u. out.1 >>= λ v. error.1 >>= λ w. ready_calls fault ports error.0)

  -- A constructor that returned made a process with both readers and the ports of the calls, and did not
  -- clean up; one that raised has cleaned up, and the error of the calls goes on with the note of the
  -- cleanup.
  abbrev pub IsStarted : Outcome Text Ports → Started platform → Type 0
  IsStarted calls (p, ok u) =
      (p.cleaned ≡ false)
      × (p.has_process ≡ true)
      × (p.readers ≡ stdout ∷ stderr ∷ [])
      × (p.calls ≡ [])
      × (calls ≡ ok (p.port, p.admin_port))
  IsStarted calls (p, err failure) =
      (text : Text) × (calls ≡ err text) × IsFailed (error_of text) (p, err failure)

  failed_started :
      (text : Text) (result : Started platform)
      → IsFailed (error_of text) result
      → IsStarted (err text) result
  failed_started text (p, ok u) (cleaned, kept, (c, e, same)) = absurd (cc same)
  failed_started text (p, err failure) h = (text, refl, h)

  fail_with-IsStarted :
      (text : Text) (p : Process State)
      → p.cleaned ≡ false
      → IsStarted (err text) (fail_with platform (error_of text) p)
  fail_with-IsStarted text p first =
      failed_started text (fail_with platform (error_of text) p)
        (fail_with-IsFailed platform (error_of text) p first)

  try_call-IsStarted {ℓ} :
      {A : Type ℓ}
      → (p : Process State) → (answer : State × Outcome Text A)
      → (next : A → Process State → Started platform) → (calls : A → Outcome Text Ports)
      → p.cleaned ≡ false
      → ((value : A) → IsStarted (calls value) (next value (record p { system = answer.0 })))
      → IsStarted (answer.1 >>= calls) (try_call platform p answer next)
  try_call-IsStarted p (system, err text) next calls first h =
      fail_with-IsStarted text (record p { system = system }) first
  try_call-IsStarted p (system, ok value) next calls first h = h value

  -- `if stopped: raise`
  raise_if-IsStarted :
      (stopped : Bool) (text : Text) (p : Process State) (going : Started platform)
      (calls : Outcome Text Ports)
      → p.cleaned ≡ false
      → IsStarted calls going
      → IsStarted
          (demand (not stopped) text >> calls)
          (if stopped then fail_with platform (error_of text) p else going)
  raise_if-IsStarted true text p going calls first h = fail_with-IsStarted text p first
  raise_if-IsStarted false text p going calls first h = h

  -- Ready for what follows the readers.
  abbrev HasReaders : List Stream → Option ℕ → Process State → Type 0
  HasReaders readers port p =
      (p.cleaned ≡ false)
      × (p.has_process ≡ true)
      × (p.readers ≡ readers)
      × (p.calls ≡ [])
      × (p.port ≡ port)
      × (p.admin_port ≡ none)

  start_reader-IsStarted :
      (stream : Stream) (readers : List Stream) (p : Process State)
      → (next : Process State → Started platform) → (calls : State → Outcome Text Ports)
      → HasReaders readers none p
      → ((q : Process State)
          → HasReaders (readers ++ stream ∷ []) none q
          → IsStarted (calls q.system) (next q))
      → IsStarted
          ((platform.launch stream p.system).1 >>= λ u. calls (platform.launch stream p.system).0)
          (start_reader platform stream p next)
  unfolding start_reader
  start_reader-IsStarted stream readers p next calls (first, process, started, made, port, admin)
        h =
      let launched = platform.launch stream p.system in
      try_call-IsStarted (record p { readers = p.readers ++ stream ∷ [] }) launched (λ u q. next q)
        (λ u. calls launched.0) first
        (λ u.
          h (record p { readers = p.readers ++ stream ∷ []; system = launched.0 })
            (first, process, ap (λ (l : List Stream). l ++ stream ∷ []) started, made, port, admin))

  find_admin_port-IsStarted :
      (port : ℕ) (p : Process State)
      → HasReaders (stdout ∷ stderr ∷ []) (some port) p
      → IsStarted
          ((platform.event admin_listening p.system).1 >>= λ text.
            port_in (codes "HP_ADMIN_LISTENING 127.0.0.1 ") [] text >>= λ admin_port.
            ok (some port, some admin_port))
          (find_admin_port platform p)
  unfolding find_admin_port
  find_admin_port-IsStarted port p (first, process, started, made, same, admin) =
      let answer = platform.event admin_listening p.system in
      let parsed : Text → Outcome Text ℕ =
        λ text. port_in (codes "HP_ADMIN_LISTENING 127.0.0.1 ") [] text in
      let store : ℕ → Process State → Started platform =
        λ found r. (record r { admin_port = some found }, ok tt) in
      let stored : ℕ → Outcome Text Ports = λ found. ok (some port, some found) in
      try_call-IsStarted p answer (λ text q. try_call platform q (q.system, parsed text) store)
        (λ text. parsed text >>= stored) first
        (λ text.
          try_call-IsStarted (record p { system = answer.0 }) (answer.0, parsed text) store stored
            first
            (λ found. (
              first,
              process,
              started,
              made,
              ap (λ (x : Option ℕ). ok (x, some found)) (sym same),
            )))

  find_ports-IsStarted :
      (p : Process State)
      → HasReaders (stdout ∷ stderr ∷ []) none p
      → IsStarted (port_calls p.system) (find_ports platform p)
  unfolding find_ports
  find_ports-IsStarted p (first, process, started, made, none_yet, admin) =
      let answer = platform.event listening p.system in
      let parsed : Text → Outcome Text ℕ = λ line. port_in listening (codes ".") line in
      let store : ℕ → Process State → Started platform =
        λ port r. find_admin_port platform (record r { port = some port }) in
      let rest : ℕ → Outcome Text Ports = λ port.
        (platform.event admin_listening answer.0).1 >>= λ text.
        port_in (codes "HP_ADMIN_LISTENING 127.0.0.1 ") [] text >>= λ admin_port.
        ok (some port, some admin_port) in
      try_call-IsStarted p answer (λ line q. try_call platform q (q.system, parsed line) store)
        (λ line. parsed line >>= rest) first
        (λ line.
          try_call-IsStarted (record p { system = answer.0 }) (answer.0, parsed line) store rest
            first
            (λ port.
              find_admin_port-IsStarted port (record p { system = answer.0; port = some port })
                (first, process, started, made, refl, admin)))

  ask_ports-IsStarted :
      (ports : Bool) (p : Process State)
      → HasReaders (stdout ∷ stderr ∷ []) none p
      → IsStarted
          (if ports then port_calls p.system else ok (none, none))
          (if ports then find_ports platform p else (p, ok tt))
  ask_ports-IsStarted true p h = find_ports-IsStarted p h
  ask_ports-IsStarted false p (first, process, started, made, port, admin) =
      (first, process, started, made, sym (rw (port, admin) refl))

  after_readers-IsStarted :
      (fault : Option Injection) (ports : Bool) (p : Process State)
      → HasReaders (stdout ∷ stderr ∷ []) none p
      → IsStarted (ready_calls fault ports p.system) (after_readers platform fault ports p)
  unfolding after_readers
  after_readers-IsStarted fault ports p h =
      raise_if-IsStarted (is_before_port platform fault) (codes "injected before-port") p
        (if ports then find_ports platform p else (p, ok tt))
        (if ports then port_calls p.system else ok (none, none)) h.0 (ask_ports-IsStarted ports p h)

  -- If the calls of the constructor, one after the other, raise nothing, it returns an object with a
  -- process, its two readers and the ports that the calls give, on which no cleanup ran. Otherwise it
  -- raises the error of the first that raised, an injected one included, and then it has cleaned up: the
  -- record has this error, and is a note on it exactly if the cleanup was not clean.
  pub start_process-IsStarted :
      (argv : List Text) (fault : Option Injection) (ports : Bool) (system : State)
      → IsStarted
          (start_calls argv fault ports system)
          (start_process platform argv fault ports system)
  unfolding start_process
  start_process-IsStarted argv fault ports system =
      let first = fresh platform argv fault system in
      let spawned = platform.spawn argv system in
      let out = platform.launch stdout spawned.0 in
      let after_out : State → Outcome Text Ports = λ st. (platform.launch stderr st).1 >>= λ w.
      ready_calls fault ports (platform.launch stderr st).0 in
      let begin : Unit {0} → Process State → Started platform = λ u p.
        start_reader platform stdout (note_pid platform p)
          (λ q. start_reader platform stderr q (after_readers platform fault ports)) in
      let calls : Unit {0} → Outcome Text Ports = λ u. out.1 >>= λ v. after_out out.0 in
      raise_if-IsStarted (is_before_popen platform fault) (codes "injected before-popen") first
        (try_call platform first spawned begin) (spawned.1 >>= calls) refl
        (try_call-IsStarted first spawned begin calls refl (λ u.
          start_reader-IsStarted stdout [] (note_pid platform (record first { system = spawned.0 }))
            (λ q. start_reader platform stderr q (after_readers platform fault ports)) after_out
            (refl, refl, refl, refl, refl, refl)
            (λ q ready.
              start_reader-IsStarted stderr (stdout ∷ []) q (after_readers platform fault ports)
                (ready_calls fault ports) ready (after_readers-IsStarted fault ports))))
