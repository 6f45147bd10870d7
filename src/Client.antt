-- ===== src/Client.antt =====
-- src/otlp_client/client.py: `OTLPClient`.
pub mod Seams
pub mod Defs
pub mod Exports
pub mod Reauth
pub mod Requests
pub mod Create
