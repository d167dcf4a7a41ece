-- ===== src/AgentLoop.antt =====
-- loop/agent_loop.py, with core/invocation.py and core/plan.py: one turn of an agent. What the planner, the
-- judge and the text of an answer are asked are parameters; what they do to the turn meanwhile is a
-- list of acts.
pub mod Types
pub mod State
pub mod Usage
pub mod Report
pub mod Steps
pub mod Work
pub mod Forward
pub mod Keeps
pub mod Whole
pub mod Billing
pub mod Accounts
pub mod Script
pub mod Asking
pub mod Within
pub mod Brackets
pub mod Degrading
pub mod Sample
mod Examples
pub mod Acts
pub mod Streams
