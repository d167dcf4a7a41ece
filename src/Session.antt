-- ===== src/Session.antt =====
-- types/session_policy.py: what a session may use.
pub mod Policy
