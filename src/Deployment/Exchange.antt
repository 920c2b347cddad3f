-- ===== src/Deployment/Exchange.antt =====
-- `exchange` in scripts/verify_deployment.py. `json.dumps` and `int` of a header are Python's.
pub mod Whole
use hp_http_server.Common.{
  ℕ, Bool, true, false, ◌&&◌, ◌||◌, Option, none, some, List, [], ◌∷◌, length, leb, ◌==◌,
  if◌then◌else◌, Outcome, ok, err, ◌>>=◌, ◌>>◌, demand, required,
}
use hp_http_server.Common.Http.{Response, Client, take}
use hp_http_server.Common.Text.{Text, codes, text_eq, is_empty}

pub data Fault : Type 0 where
  client_failed : Text → Fault
  wrong_status : ℕ → Fault
  too_long no_length wrong_length : Fault

pub record Codec (Json : Type 0) : Type 0 where
  pub dumps : Json → Text
  pub int : Text → Option ℕ

module _ {Json : Type 0} (codec : Codec Json) where
  abbrev pub encoded : Option Json → Option Text
  encoded none = none
  encoded (some body) = some (codec.dumps body)

  -- `if encoded` asks for a text that is there and is not empty.
  abbrev pub headers : Option Text → List (Text × Text)
  headers none = (codes "Connection", codes "close") ∷ []
  headers (some []) = (codes "Connection", codes "close") ∷ []
  headers (some (c ∷ s)) =
      (codes "Connection", codes "close") ∷ (codes "Content-Type", codes "application/json") ∷ []

  abbrev pub length_of : Option Text → Outcome Fault ℕ
  length_of none = err no_length
  length_of (some value) = required (codec.int value) no_length

  unfoldable pub check_length : Text → Response → Text → Outcome Fault (Unit {0})
  check_length method response payload =
      if text_eq method (codes "HEAD") && is_empty payload then ok tt else (do
        announced ← length_of (response.header (codes "Content-Length"))
        demand (announced == length payload) wrong_length)

  unfoldable pub check_response : Text → ℕ → Response → Outcome Fault Text
  unfolding check_length
  check_response method status response = do
    demand (response.status == status) (wrong_status response.status)
    demand (leb (length (take 262145 response.body)) 262144) too_long
    check_length method response (take 262145 response.body)
    ok (take 262145 response.body)

  abbrev pub answered :
      {State : Type 0} → Text → ℕ → State × Outcome Text Response → State × Outcome Fault Text
  answered method status (state, err text) = (state, err (client_failed text))
  answered method status (state, ok response) = (state, check_response method status response)

  unfoldable pub exchange :
      {State : Type 0}
      → Client State
      → Text
      → Text
      → Option Json
      → ℕ
      → State
      → State × Outcome Fault Text
  unfolding check_response
  exchange client method target body status state =
      answered method status
        (client.request method target (encoded body) (headers (encoded body)) state)
