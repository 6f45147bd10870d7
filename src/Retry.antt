-- ===== src/Retry.antt =====
-- src/otlp_client/retry.py: the policy, Retry-After, and the retry loop.
pub mod Defs
pub mod Parse
pub mod Loop
pub mod Budget
pub mod Returns
pub mod Keeps
