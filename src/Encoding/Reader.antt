-- ===== src/Encoding/Reader.antt =====
-- A reference reader of OTLP/JSON, after the mapping of protobuf messages to JSON with the rules of
-- OTLP: 64-bit integers are decimal texts, ids are hexadecimal, other bytes are base64, enumerations
-- are numbers, and a key that is not there stands for a field that is not set.
pub mod Fields
pub mod Common
pub mod Traces
pub mod Logs
pub mod Points
pub mod Metrics
