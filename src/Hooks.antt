-- ===== src/Hooks.antt =====
-- hooks/ and memory/isolation.py: who may hold back a call of a tool.
pub mod Dispatch
pub mod Isolation
