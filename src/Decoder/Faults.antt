-- ===== src/Decoder/Faults.antt =====
-- The messages with which benchmark/tail-localization/decode_v3.py raises `Invalid`.
use hp_http_server.Timeline.Errors.{Invalid}

pub data Fault : Type 0 where
  invalid_completion_payload invalid_server_return invalid_client_return : Fault
  status_on_non_return unexpected_value invalid_readiness_mask zero_value : Fault
  unexpected_read_size sendfile_too_long : Fault
  short_header schema_invalid count_mismatch identity_differs short_block : Fault
  clock_outside_coverage unknown_kind_or_sequence timestamp_bounds_mismatch : Fault
  outside_frozen_filter wrong_owner late_event origin_gap duplicate_point nested_start : Fault
  orphan_return returned_too_much unclosed_scope endpoint_without_origin missing_origin : Fault
  missing_interior_endpoints client_order_invalid server_order_invalid body_unverified : Fault
  byte_accounting_differs origins_differ quota_differs : Fault
  sequence_target_differs selection_incomplete : Fault
  timeline : Invalid → Fault
