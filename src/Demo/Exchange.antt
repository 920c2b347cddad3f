-- ===== src/Demo/Exchange.antt =====
-- `exchange` in scripts/demo_task_application.py: one request, and what its answer has to be. JSON texts
-- and `int` of a header are Python's.
pub mod Whole
use hp_http_server.Common.{
  ℕ, Bool, true, false, Option, none, some, List, [], ◌∷◌, length, leb, ◌==◌, if◌then◌else◌,
  Outcome, ok, err, ◌>>=◌, ◌>>◌, demand, required,
}
use hp_http_server.Common.Http.{Response, Client, take}
use hp_http_server.Common.Text.{Text, codes, text_eq, starts_with}

pub data Fault : Type 0 where
  client_failed : Text → Fault
  wrong_status : ℕ → Fault
  no_length framing no_store media budget no_json : Fault

-- `json.dumps`, `json.loads` and `int`, which raise on what they cannot read.
pub record Codec (Json : Type 0) : Type 0 where
  pub dumps : Json → Text
  pub loads : Text → Option Json
  pub int : Text → Option ℕ

pub data Answer (Json : Type 0) : Type 0 where
  decoded : Json → Answer Json
  raw : Text → Answer Json

abbrev pub is_header : Option Text → Text → Bool
is_header none expected = false
is_header (some value) expected = text_eq value expected

abbrev pub is_task_path : Text → Bool
is_task_path path = starts_with path (codes "/api/tasks")

module _ {Json : Type 0} (codec : Codec Json) where
  abbrev pub encoded : Option Json → Option Text
  encoded none = none
  encoded (some body) = some (codec.dumps body)

  abbrev pub headers : Option Json → List (Text × Text)
  headers none = []
  headers (some body) = (codes "Content-Type", codes "application/json") ∷ []

  abbrev pub length_of : Option Text → Outcome Fault ℕ
  length_of none = err no_length
  length_of (some value) = required (codec.int value) no_length

  -- The checks of an answer of the task API, and its value.
  unfoldable pub check_task : Response → Text → Outcome Fault (Answer Json)
  check_task response payload = do
    demand (is_header (response.header (codes "Cache-Control")) (codes "no-store")) no_store
    demand (is_header (response.header (codes "Content-Type")) (codes "application/json")) media
    demand (leb (length payload) 262144) budget
    value ← required (codec.loads payload) no_json
    ok (decoded value)

  unfoldable pub check_payload : Text → Response → Text → Outcome Fault (Answer Json)
  unfolding check_task
  check_payload path response payload =
      if is_task_path path then check_task response payload else ok (raw payload)

  unfoldable pub check_response : Text → ℕ → Response → Outcome Fault (Answer Json)
  unfolding check_payload
  check_response path expected_status response = do
    demand (response.status == expected_status) (wrong_status response.status)
    announced ← length_of (response.header (codes "Content-Length"))
    demand (announced == length (take 262145 response.body)) framing
    check_payload path response (take 262145 response.body)

  abbrev pub answered :
      {State : Type 0}
      → Text
      → ℕ
      → State × Outcome Text Response
      → State × Outcome Fault (Answer Json)
  answered path expected_status (state, err text) = (state, err (client_failed text))
  answered path expected_status (state, ok response) =
      (state, check_response path expected_status response)

  unfoldable pub exchange :
      {State : Type 0}
      → Client State
      → Text
      → Text
      → Option Json
      → ℕ
      → State
      → State × Outcome Fault (Answer Json)
  unfolding check_response
  exchange client method path body expected_status state =
      answered path expected_status (client.request method path (encoded body) (headers body) state)
