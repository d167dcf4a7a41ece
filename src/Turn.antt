-- ===== src/Turn.antt =====
-- patterns/agentic_loop.py: a turn as a loop that plans, works, checks and plans again.
pub mod Critics
pub mod Types
pub mod Run
pub mod Progress
pub mod Breaker
pub mod Refusal
pub mod Notes
pub mod World
pub mod Decision
pub mod Iteration
pub mod Loop
pub mod Ends
pub mod Keeps
pub mod Phases
pub mod Labor
pub mod Verdicts
pub mod Ending
pub mod Outcome
pub mod Drafts
pub mod Caveat
pub mod Streak
mod Sample
mod Examples
