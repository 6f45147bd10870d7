-- ===== src/Encoding/Proto.antt =====
-- src/otlp_client/encoding/protobuf.py.
pub mod Messages
pub mod Common
pub mod Traces
pub mod Logs
pub mod Points
pub mod Metrics
pub mod Encoder
