-- ===== src/Config.antt =====
-- src/otlp_client/config.py: `OTLPConfig`, its validation, the environment, and what a signal gets.
pub mod Defs
pub mod Parse
pub mod Env
pub mod Validation
pub mod Resolve
pub mod HeaderText
