-- ===== src/Tests.antt =====
-- Runs of the code at concrete inputs.
pub mod Samples
pub mod Retry
pub mod Config
pub mod Processor
pub mod Client
pub mod Model
pub mod Http
pub mod Grpc
pub mod Encoding
pub mod Responses
pub mod Credentials
pub mod Tokens
pub mod Waking
pub mod Delivery
pub mod Documents
