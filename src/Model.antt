-- ===== src/Model.antt =====
-- src/otlp_client/model: the data model of the three signals and its builders.
pub mod Common
pub mod Logs
pub mod Metrics
pub mod Traces
pub mod Builders
