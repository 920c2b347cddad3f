-- ===== src/Timeline/Document.antt =====
-- The normalized evidence that `analyze` of benchmark/tail-localization/analyze.py reads.
-- A JSON object is a record: a value that the code reads by `.get` and tests for its presence or
-- its type is a `Scalar` or an `Option`, a flag that it only tests for truth is a `Bool`.
-- Times are nanoseconds of the monotonic clock, which are never negative.
use hp_http_server.Common.{
  ℕ, ◌≡◌, ◌↔◌, refl, Bool, true, false, ◌&&◌, Option, List, [], ◌∷◌, String, str_eq, eq_iff, arith,
  leb, ◌==◌,
}
use hp_http_server.Common.Int.{ℤ, pos, negsuc}

-- A JSON value that is only compared, or tested to be an int; `other` holds the text of one that
-- is no int, and `missing` is Python's `None` for an absent key.
pub data Scalar : Type 0 where
  int : ℤ → Scalar
  other : String → Scalar
  missing : Scalar

abbrev int_eq : ℤ → ℤ → Bool
int_eq (pos a) (pos b) = a == b
int_eq (negsuc a) (negsuc b) = a == b
int_eq _ _ = false

unfoldable pub scalar_eq : Scalar → Scalar → Bool
scalar_eq (int a) (int b) = int_eq a b
scalar_eq (other a) (other b) = str_eq a b
scalar_eq missing missing = true
scalar_eq _ _ = false

-- `type(value) is int and value >= low`
abbrev pub is_int_from : ℕ → Scalar → Bool
is_int_from low (int (pos n)) = leb low n
is_int_from low _ = false

pub record Owner : Type 0 where
  pub pid : Scalar
  pub starttime : Scalar
  pub tid : Scalar
  pub worker : Scalar

unfoldable pub owner_eq : Owner → Owner → Bool
unfolding scalar_eq
owner_eq a b =
    scalar_eq a.pid b.pid
    && scalar_eq a.starttime b.starttime
    && scalar_eq a.tid b.tid
    && scalar_eq a.worker b.worker

-- `(run_id, tuple(four_tuple), lifetime)`; the parts of the four-tuple by their texts.
pub record Key : Type 0 where
  pub run_id : String
  pub four_tuple : List String
  pub lifetime : ℕ

abbrev texts_eq : List String → List String → Bool
texts_eq [] [] = true
texts_eq (a ∷ as') (b ∷ bs) = str_eq a b && texts_eq as' bs
texts_eq _ _ = false

unfoldable pub key_eq : Key → Key → Bool
key_eq a b =
    str_eq a.run_id b.run_id && texts_eq a.four_tuple b.four_tuple && a.lifetime == b.lifetime

pub data Endpoint : Type 0 where
  client server unknown_endpoint : Endpoint

pub data Kind : Type 0 where
  write_begin write_complete first_byte client_complete : Kind
  server_first_read parse_complete response_enqueued output_drained handler_return : Kind
  activity unknown_kind : Kind

abbrev pub kind_code : Kind → ℕ
kind_code write_begin = 0
kind_code write_complete = 1
kind_code first_byte = 2
kind_code client_complete = 3
kind_code server_first_read = 4
kind_code parse_complete = 5
kind_code response_enqueued = 6
kind_code output_drained = 7
kind_code handler_return = 8
kind_code activity = 9
kind_code unknown_kind = 10

abbrev pub kind_eq : Kind → Kind → Bool
kind_eq a b = kind_code a == kind_code b

pub record ClockIdentity : Type 0 where
  pub boot_id : Option String
  pub time_namespace : Option String

pub record Metadata : Type 0 where
  pub overflow : Bool
  pub writers_stopped : Bool
  pub clock : String
  pub unit : String
  pub endpoints : List ClockIdentity
  pub measurement_start_ns : ℕ
  pub measurement_end_ns : ℕ
  pub recording_start_ns : Option ℕ
  pub recording_end_ns : Option ℕ

pub record Connection : Type 0 where
  pub key : Key
  pub frozen_before_warmup : Bool
  pub one_inflight : Bool
  pub reconnect : Bool
  pub server : Owner
  pub client : Owner

-- `time_ns` is `none` if it is no int; `end_ns` is read of an activity only.
pub record Event : Type 0 where
  pub key : Key
  pub request_sequence : Scalar
  pub time_ns : Option ℕ
  pub endpoint : Endpoint
  pub kind : Kind
  pub owner : Owner
  pub end_ns : ℕ
  pub content_length_verified : Bool
  pub body_verified : Bool

pub data Reason : Type 0 where
  active_at_recording_start active_at_recording_end other_reason : Reason

pub record Boundary : Type 0 where
  pub key : Key
  pub request_sequence : ℕ
  pub reason : Reason
  pub active_start_ns : Option ℕ
  pub active_end_ns : Option ℕ

pub record Document : Type 0 where
  pub metadata : Metadata
  pub connections : List Connection
  pub events : List Event
  pub request_boundaries : List Boundary

int_eq_sound : (a b : ℤ) → int_eq a b ≡ true → a ≡ b
int_eq_sound a b h = ground arith

pub scalar_eq_sound : (a b : Scalar) → scalar_eq a b ≡ true → a ≡ b
unfolding scalar_eq
scalar_eq_sound (int a) (int b) h = ground (arith, int_eq_sound a b h)
scalar_eq_sound (other a) (other b) h = ground (arith, eq_iff a b)
scalar_eq_sound missing missing h = refl
scalar_eq_sound _ _ h = cc

-- Two owners pass the comparison of the four fields only if they are one.
pub owner_eq_sound : (a b : Owner) → owner_eq a b ≡ true → a ≡ b
unfolding owner_eq
owner_eq_sound a b h = ground (
  arith,
  scalar_eq_sound a.pid b.pid,
  scalar_eq_sound a.starttime b.starttime,
  scalar_eq_sound a.tid b.tid,
  scalar_eq_sound a.worker b.worker,
)

texts_eq_sound : (a b : List String) → texts_eq a b ≡ true → a ≡ b
texts_eq_sound [] [] h = refl
texts_eq_sound (x ∷ a) (y ∷ b) h = ground (arith, eq_iff x y, texts_eq_sound a b)
texts_eq_sound _ _ h = cc

texts_eq_refl : (a : List String) → texts_eq a a ≡ true
texts_eq_refl [] = refl
texts_eq_refl (x ∷ a) = ground (arith, eq_iff x x, texts_eq_refl a)

pub key_eq_iff : (a b : Key) → (key_eq a b ≡ true) ↔ (a ≡ b)
unfolding key_eq
key_eq_iff a b = (
  λ h. ground (arith, eq_iff a.run_id b.run_id, texts_eq_sound a.four_tuple b.four_tuple),
  λ h. ground (arith, eq_iff a.run_id b.run_id, texts_eq_refl a.four_tuple),
)
