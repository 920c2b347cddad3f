-- ===== src/Demo/Exchange/Whole.antt =====
-- What an answer that `exchange` in scripts/demo_task_application.py returns stands for.
use Prim.Native.Nat.{◌≤◌}
use hp_http_server.Common.{
  ℕ, ◌≡◌, refl, ap, sym, ◌∙◌, subst, true, false, Option, some, length, leb, ◌==◌, ==_iff,
  Bool-cases, inl, inr, Outcome, ok, err, >>=-eq-ok, demand, demand-eq-ok, required, required-eq-ok,
  ok-injective,
}
use hp_http_server.Common.Http.{Response, Client, take, take_fits}
use hp_http_server.Common.Text.{Text, codes}
use hp_http_server.Demo.Exchange.{
  wrong_status, framing, no_store, media, budget, no_json, Codec, Answer, decoded, raw, is_header,
  is_task_path, length_of, check_task, check_payload, check_response, encoded, headers, answered,
  exchange,
}

module _ {Json : Type 0} (codec : Codec Json) where
  -- The value of the whole body, which fits the budget, of an answer that must not be stored; or, off the
  -- task API, the body up to its announced length.
  abbrev pub IsAnswer : Text → Response → Answer Json → Type 0
  IsAnswer path response (decoded value) =
      (is_task_path path ≡ true)
      × (codec.loads response.body ≡ some value)
      × (length response.body ≤ 262144)
      × (is_header (response.header (codes "Cache-Control")) (codes "no-store") ≡ true)
  IsAnswer path response (raw payload) =
      (payload ≡ take 262145 response.body) × (is_task_path path ≡ false)

  -- The answer has the expected status, and announced the length of what was read of it.
  abbrev pub IsFramed : ℕ → Response → Type 0
  IsFramed expected_status response =
      (response.status ≡ expected_status)
      × (length_of codec (response.header (codes "Content-Length"))
          ≡ ok (length (take 262145 response.body)))

  check_task-IsAnswer :
      (path : Text) (response : Response) (answer : Answer Json)
      → is_task_path path ≡ true
      → check_task codec response (take 262145 response.body) ≡ ok answer
      → IsAnswer path response answer
  unfolding check_task
  check_task-IsAnswer path response answer task h =
      let (u, stored, h1) =
        >>=-eq-ok
          (demand (is_header (response.header (codes "Cache-Control")) (codes "no-store")) no_store)
          _ h in
      let (v, typed, h2) =
        >>=-eq-ok
          (demand (is_header (response.header (codes "Content-Type")) (codes "application/json"))
            media)
          _ h1 in
      let (w, small, h3) =
        >>=-eq-ok (demand (leb (length (take 262145 response.body)) 262144) budget) _ h2 in
      let (value, loaded, h4) =
        >>=-eq-ok (required (codec.loads (take 262145 response.body)) no_json) _ h3 in
      let fits = demand-eq-ok (leb (length (take 262145 response.body)) 262144) budget small in
      let (whole, bounded) = take_fits 262144 response.body fits in
      subst (IsAnswer path response) (ok-injective h4) (
        task,
        ap codec.loads (sym whole)
            ∙ required-eq-ok (codec.loads (take 262145 response.body)) no_json loaded,
        bounded,
        demand-eq-ok (is_header (response.header (codes "Cache-Control")) (codes "no-store"))
            no_store stored,
      )

  check_payload-IsAnswer :
      (path : Text) (response : Response) (answer : Answer Json)
      → check_payload codec path response (take 262145 response.body) ≡ ok answer
      → IsAnswer path response answer
  unfolding check_payload
  check_payload-IsAnswer path response answer h = elim (Bool-cases (is_task_path path)) [
    | inl task ↦ check_task-IsAnswer path response answer task (rw task at h)
    | inr other ↦ subst (IsAnswer path response) (ok-injective (rw other at h)) (refl, other)
  ]

  check_response-IsAnswer :
      (path : Text) (expected_status : ℕ) (response : Response) (answer : Answer Json)
      → check_response codec path expected_status response ≡ ok answer
      → IsFramed expected_status response × IsAnswer path response answer
  unfolding check_response
  check_response-IsAnswer path expected_status response answer h =
      let (u, status, h1) =
        >>=-eq-ok (demand (response.status == expected_status) (wrong_status response.status)) _
          h in
      let (announced, length_read, h2) =
        >>=-eq-ok (length_of codec (response.header (codes "Content-Length"))) _ h1 in
      let (v, framed, h3) =
        >>=-eq-ok (demand (announced == length (take 262145 response.body)) framing) _ h2 in
      let same =
        (==_iff announced (length (take 262145 response.body))).0
          (demand-eq-ok (announced == length (take 262145 response.body)) framing framed) in
      (
        (
          (==_iff response.status expected_status).0 (
              demand-eq-ok (response.status == expected_status) (wrong_status response.status)
                status),
          length_read ∙ ap ok same,
        ),
        check_payload-IsAnswer path response answer h3,
      )

  answered-IsAnswer :
      {State : Type 0}
      → (path : Text) → (expected_status : ℕ) → (given : State × Outcome Text Response)
      → (answer : Answer Json) → (answered codec path expected_status given).1 ≡ ok answer
      → (response : Response) × (given.1 ≡ ok response)
        × IsFramed expected_status response
        × IsAnswer path response answer
  answered-IsAnswer path expected_status (state, err text) answer h = cc
  answered-IsAnswer path expected_status (state, ok response) answer h =
      let (framed, whole) = check_response-IsAnswer path expected_status response answer h in
      (response, refl, framed, whole)

  -- If `exchange` returns, the peer's answer has the expected status and announced as many bytes as were
  -- read. Of a path of the task API the value is that of the whole body, never of a part; the body has at
  -- most 262144 bytes and must not be stored. Of another path it is the body, cut after 262145 bytes.
  pub exchange-IsAnswer :
      {State : Type 0}
      → (client : Client State) → (method path : Text) → (body : Option Json)
      → (expected_status : ℕ) → (state : State) → (answer : Answer Json)
      → (exchange codec client method path body expected_status state).1 ≡ ok answer
      → (response : Response) × ((client.request method path
            (encoded codec body)
            (headers codec body)
            state).1
          ≡ ok response)
        × IsFramed expected_status response
        × IsAnswer path response answer
  unfolding exchange
  exchange-IsAnswer client method path body expected_status state answer h =
      answered-IsAnswer path expected_status
        (client.request method path (encoded codec body) (headers codec body) state) answer h
