-- ===== src/Grpc.antt =====
-- src/otlp_client/transport/grpc.py.
pub mod Defs
pub mod Codes
pub mod Open
pub mod Create
