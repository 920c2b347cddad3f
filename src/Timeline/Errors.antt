-- ===== src/Timeline/Errors.antt =====
-- The messages of `Invalid`, the exception of benchmark/tail-localization/analyze.py.
pub data Invalid : Type 0 where
  reversed_interval overflow_or_active_writer unsupported_clock clock_identity_differs : Invalid
  duplicate_or_late_connection unsupported_client_flow invalid_endpoint_owner : Invalid
  too_many_connections unmapped_event invalid_request_sequence endpoint_kind_mismatch : Invalid
  event_owner_mismatch request_sequence_gap duplicate_request_event : Invalid
  missing_boundary_evidence missing_interior_event local_event_order body_not_verified : Invalid
