-- ===== src/Termination.antt =====
-- termination/: when a run is over.
pub mod Loop
pub mod Judge
