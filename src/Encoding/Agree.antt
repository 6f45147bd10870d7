-- ===== src/Encoding/Agree.antt =====
-- The two encoders against the reference reader.
pub mod Fields
pub mod Kept
pub mod Common
pub mod Envelope
pub mod Traces
pub mod Logs
pub mod Values
pub mod Points
pub mod Histograms
pub mod Metrics
pub mod Responses
