-- ===== src/Processor.antt =====
-- src/otlp_client/processor.py: `BatchProcessor`, one bounded queue for each signal.
-- `Defs` has the state, the queues and `_submit`; `Flush` the flush, the background loop's round and
-- `__aexit__`; `System` the interleavings of all of these, `Wake` the states in which the task waits.
pub mod Defs
pub mod Flush
pub mod Submit
pub mod Bounds
pub mod System
pub mod Balance
pub mod Paths
pub mod Shutdown
pub mod Wake
pub mod Failures
