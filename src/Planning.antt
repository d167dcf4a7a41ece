-- ===== src/Planning.antt =====
-- planning/ and types/plan.py: the execution of a plan.
pub mod Budget
pub mod Route
pub mod Graph
pub mod Compose
pub mod ToolPolicy
pub mod Delegation
pub mod Hierarchy
pub mod GoalCheck
