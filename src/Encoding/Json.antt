-- ===== src/Encoding/Json.antt =====
-- src/otlp_client/encoding/json.py and primitives.py.
pub mod Tree
pub mod Common
pub mod Traces
pub mod Logs
pub mod Points
pub mod Metrics
pub mod Encoder
