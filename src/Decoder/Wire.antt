-- ===== src/Decoder/Wire.antt =====
-- The binary records and `validate_payload` of benchmark/tail-localization/decode_v3.py. A record
-- is the tuple that `struct` unpacks: unsigned fields are natural numbers, `result` is signed.
use hp_http_server.Common.{
  ℕ, Bool, false, ◌&&◌, ◌||◌, List, [], ◌∷◌, ltb, leb, ◌==◌, if◌then◌else◌, any, Outcome, ok, ◌>>◌,
  demand,
}
use Prim.Native.Nat.{bit_and}
use hp_http_server.Common.Int.{ℤ, pos, negsuc}
use hp_http_server.Decoder.Faults.{
  Fault, invalid_completion_payload, invalid_server_return, invalid_client_return,
  status_on_non_return, unexpected_value, invalid_readiness_mask, zero_value, unexpected_read_size,
  sendfile_too_long,
}

pub record WireRecord : Type 0 where
  pub timestamp : ℕ
  pub value : ℕ
  pub connection : ℕ
  pub sequence : ℕ
  pub kind : ℕ
  pub flags : ℕ
  pub result : ℤ

abbrev pub is_in : ℕ → List ℕ → Bool
is_in n ns = any (λ m. n == m) ns

abbrev pub client_kinds : List ℕ
client_kinds = 1 ∷ 2 ∷ 3 ∷ 4 ∷ 19 ∷ 20 ∷ 21 ∷ 22 ∷ []

abbrev pub server_kinds : List ℕ
server_kinds = 5 ∷ 6 ∷ 7 ∷ 8 ∷ 9 ∷ 10 ∷ 11 ∷ 12 ∷ 13 ∷ 14 ∷ 15 ∷ 16 ∷ 17 ∷ 18 ∷ 23 ∷ []

abbrev pub int_is : ℤ → ℕ → Bool
int_is (pos a) n = a == n
int_is (negsuc a) n = false

-- `EAGAIN` and `EWOULDBLOCK` of Linux, which are one number.
abbrev pub eagain : ℕ
eagain = 11

-- `1|4|8|16|8192`
abbrev pub readiness : ℕ
readiness = 8221

-- `value & ~readiness == 0`
abbrev pub within_readiness : ℕ → Bool
within_readiness value = bit_and value readiness == value

-- `errno.errorcode` is a table of the platform: `errors` tells which numbers it holds.
module _ (errors : ℤ → Bool) where
  unfoldable pub check_return : ℕ → ℕ → ℕ → ℤ → Outcome Fault (Unit {0})
  check_return kind value flags result =
      if kind == 4
      then demand (value == 1024 && flags == 1 && int_is result 200) invalid_completion_payload
      else if is_in kind (7 ∷ 12 ∷ 14 ∷ [])
      then demand ((flags == 0 && int_is result 0) || (flags == 1 && value == 0 && errors result))
          invalid_server_return
      else if is_in kind (20 ∷ 22 ∷ [])
      then demand
          ((flags == 0 && int_is result 0)
            || (flags == 2 && value == 0 && int_is result eagain)
            || (flags == 1 && value == 0 && (int_is result 0 || errors result)))
          invalid_client_return
      else do
        demand (flags == 0 && int_is result 0) status_on_non_return
        if is_in kind (15 ∷ 17 ∷ 18 ∷ 23 ∷ [])
            then demand (value == 0) unexpected_value
            else if is_in kind (5 ∷ 16 ∷ [])
            then demand (ltb 0 value && within_readiness value) invalid_readiness_mask
            else demand (ltb 0 value) zero_value

  unfoldable pub validate_payload : ℕ → ℕ → ℕ → ℤ → Outcome Fault (Unit {0})
  unfolding check_return
  validate_payload kind value flags result = do
    check_return kind value flags result
    if kind == 21 then demand (value == 8192) unexpected_read_size else ok tt
    if kind == 13 then demand (leb value 1024) sendfile_too_long else ok tt
