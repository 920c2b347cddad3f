-- ===== src/Lib.antt =====
-- A verification library for the Python programs of HP-HTTP-Server: the commands under scripts/ and
-- the benchmark harness under benchmark/.
--
-- The parts and the files that model them:
--
-- * Format (scripts/format_cpp.py): paths, `eligible` and `validate_path` in Format/Paths.antt,
--   `names` and the sorted sets in Format/Names.antt, the search for the version in
--   Format/Version.antt, `main` in Format/Run.antt as a function of the work tree and of what git
--   and clang-format answer, which gives the tree after it and an outcome. A write that raises may
--   leave a cut file. A set of names is the sorted list of its members; `decode` of a name is a
--   parameter.
--
-- * Demo (scripts/demo_task_application.py): `collect_output` and `wait_port` of DemoServer along a
--   schedule in Demo/Output.antt, its constructor, `cleanup` and `__exit__` in Demo/Server.antt, on
--   a Platform, the record of what the process, the thread and the files answer. Queries of the
--   process do not raise; `calls` is a log of the calls of the cleanup, which the source has not.
--   `exchange` is in Demo/Exchange.antt and `finalize_output` in Demo/Finalize.antt. The `with`
--   statement and the end of `demonstrate` are in Demo/Demonstrate.antt; the requests of its
--   scenario are not modelled.
--
-- * Deployment (scripts/verify_deployment.py): the constructor, `cleanup` and `__exit__` of
--   ServerProcess in Deployment/Process.antt, `collect` and `event` in Deployment/Streams.antt,
--   `exchange` in Deployment/Exchange.antt, `assert_clean` and the end of `run` in
--   Deployment/Finish.antt. What the readers did, and the line that `event` found, is asked of a
--   Platform there. `verify_unit`, `metrics` and the scenario of `run` are not modelled.
--
-- * Timeline (benchmark/tail-localization/analyze.py): `interval_union` and
--   `intersection_duration` in Timeline/Intervals.antt, the evidence document in
--   Timeline/Document.antt, the checks and the grouping of `analyze` in Timeline/Events.antt, the
--   row of one request in Timeline/Rows.antt, `analyze` in Timeline/Analyze.antt.
--
-- * Decoder (benchmark/tail-localization/decode_v3.py): the 32-byte records and `validate_payload`
--   in Decoder/Wire.antt, `thread_records` in Decoder/Threads.antt, `heapq.merge` in
--   Decoder/Merge.antt, what one row does to the group of its request in Decoder/Group.antt,
--   `finish` in Decoder/Finish.antt with the events of the document that it hands to `analyze` of
--   Timeline in Decoder/Finish/Evidence.antt, and the association loop with the final checks in
--   Decoder/Associate.antt; Decoder/Capture.antt puts them together.
--
-- * Matrix (benchmark/matrix/Common.py): `sizes` and the methods of `Budget` in Matrix/Budget.antt,
--   its constructor in Matrix/Budget/Opening.antt. A method returns the object after it and what
--   it raised; `run` in Matrix/Budget/Runs.antt is a sequence of calls. Times are nanoseconds. A
--   deadline before the tenth second of the clock is cut off at 0, where every check fails too.
--
-- The loops are structural recursion, so no fuel is used: `check_records` recurs on the number of
-- records that the header still promises. Of the decoder, the choice of the selected connections
-- and the mapped threads, the digests and the catalog, the event counters, the order of the slow
-- requests and the returned dictionary are not modelled. `errno.errorcode` is a parameter.
--
-- `int` of decimal digits raises on more than 4300 of them, as Python does since 3.11. Not modelled: the
-- ledger of benchmark/regression/budget.py, whose charges are sums of floats.
--
-- An exception is a value of `Outcome`; a JSON object is a record whose keys are all there: a
-- `KeyError` is modelled only where the methods of the matrix `Budget` can meet one. Times are
-- natural numbers.
pub mod Common
pub mod Timeline
pub mod Decoder
pub mod Matrix
pub mod Format
pub mod Demo
pub mod Deployment
