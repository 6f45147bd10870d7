-- ===== src/Encoding.antt =====
-- src/otlp_client/encoding: the two encoders of a signal's envelopes.
pub mod Json
pub mod Proto
pub mod Reader
pub mod Agree
