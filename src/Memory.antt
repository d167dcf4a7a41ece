-- ===== src/Memory.antt =====
-- The session memory: types/memory.py, memory/sections.py and memory/session.py.
pub mod Types
pub mod Section
pub mod Trim
pub mod Session
pub mod Institutional
