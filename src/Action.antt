-- ===== src/Action.antt =====
-- action/ and runtime/permissions.py: the gates that a tool call passes.
pub mod Circuit
pub mod Gate
pub mod RateLimit
