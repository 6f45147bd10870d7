-- ===== src/Http.antt =====
-- src/otlp_client/transport/http.py.
pub mod Defs
pub mod Replies
pub mod Exports
pub mod Tls
