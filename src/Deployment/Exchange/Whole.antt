-- ===== src/Deployment/Exchange/Whole.antt =====
-- The payload that `exchange` in scripts/verify_deployment.py returns.
use Prim.Native.Nat.{◌≤◌}
use hp_http_server.Common.{
  ℕ, ◌≡◌, refl, ap, sym, ◌∙◌, true, ◌&&◌, Option, length, leb, ◌==◌, ==_iff, Outcome, ok, err,
  >>=-eq-ok, demand, demand-eq-ok, ok-injective, ◌⊎◌, inl, inr, Bool-cases,
}
use hp_http_server.Common.Http.{Response, Client, take, take_fits}
use hp_http_server.Common.Text.{Text, codes, text_eq, is_empty}
use hp_http_server.Deployment.Exchange.{
  wrong_status, too_long, wrong_length, Codec, encoded, headers, length_of, check_length,
  check_response, answered, exchange,
}

module _ {Json : Type 0} (codec : Codec Json) where
  -- The whole body, of at most 262144 bytes, of an answer with the status; its length was announced, but
  -- for an empty answer to HEAD.
  abbrev pub IsPayload : Text → ℕ → Response → Text → Type 0
  IsPayload method status response payload =
      (payload ≡ response.body)
      × (length response.body ≤ 262144)
      × (response.status ≡ status)
      × (((text_eq method (codes "HEAD") && is_empty payload) ≡ true)
          ⊎ (length_of codec (response.header (codes "Content-Length")) ≡ ok (length payload)))

  check_length_sound :
      (method : Text) (response : Response) (payload : Text)
      → check_length codec method response payload ≡ ok tt
      → ((text_eq method (codes "HEAD") && is_empty payload) ≡ true)
        ⊎ (length_of codec (response.header (codes "Content-Length")) ≡ ok (length payload))
  unfolding check_length
  check_length_sound method response payload h =
      elim (Bool-cases (text_eq method (codes "HEAD") && is_empty payload)) [
        | inl head ↦ inl head
        | inr other ↦
            let (announced, found, h1) =
              >>=-eq-ok (length_of codec (response.header (codes "Content-Length"))) _
                (rw other at h) in
            inr (
              found
              ∙ ap ok (
                  (==_iff announced (length payload)).0
                    (demand-eq-ok (announced == length payload) wrong_length h1)))
      ]

  check_response-IsPayload :
      (method : Text) (status : ℕ) (response : Response) (payload : Text)
      → check_response codec method status response ≡ ok payload
      → IsPayload method status response payload
  unfolding check_response
  check_response-IsPayload method status response payload h =
      let (u, same, h1) =
        >>=-eq-ok (demand (response.status == status) (wrong_status response.status)) _ h in
      let (v, small, h2) =
        >>=-eq-ok (demand (leb (length (take 262145 response.body)) 262144) too_long) _ h1 in
      let (w, framed, h3) =
        >>=-eq-ok (check_length codec method response (take 262145 response.body)) _ h2 in
      let (whole, fits) =
        take_fits 262144 response.body
          (demand-eq-ok (leb (length (take 262145 response.body)) 262144) too_long small) in
      let returned : take 262145 response.body ≡ payload = ok-injective h3 in
      (
        sym returned ∙ whole,
        fits,
        (==_iff response.status status).0
            (demand-eq-ok (response.status == status) (wrong_status response.status) same),
        check_length_sound method response payload (rw returned at framed),
      )

  answered-IsPayload :
      {State : Type 0}
      → (method : Text) → (status : ℕ) → (given : State × Outcome Text Response) → (payload : Text)
      → (answered codec method status given).1 ≡ ok payload
      → (response : Response) × (given.1 ≡ ok response) × IsPayload method status response payload
  answered-IsPayload method status (state, err text) payload h = cc
  answered-IsPayload method status (state, ok response) payload h =
      (response, refl, check_response-IsPayload method status response payload h)

  -- If `exchange` returns, it returns the whole body of the peer's answer, never a part, the body has at
  -- most 262144 bytes, the answer has the status, and its length was announced, unless the request was
  -- HEAD and the body is empty.
  pub exchange-IsPayload :
      {State : Type 0}
      → (client : Client State) → (method target : Text) → (body : Option Json) → (status : ℕ)
      → (state : State) → (payload : Text)
      → (exchange codec client method target body status state).1 ≡ ok payload
      → (response : Response) × ((client.request method target
            (encoded codec body)
            (headers codec (encoded codec body))
            state).1
          ≡ ok response)
        × IsPayload method status response payload
  unfolding exchange
  exchange-IsPayload client method target body status state payload h =
      answered-IsPayload method status
        (client.request method target (encoded codec body) (headers codec (encoded codec body))
          state)
        payload h
